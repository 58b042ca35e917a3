-- ===== src/Modbus/Transport/Frames.antt =====
-- A framed PDU on the RTU transport passes the CRC check and is parsed as the PDU that it carries.
use bbcom.Base.{
  ℕ, ◌+◌, ◌-◌, ◌≤◌, ◌≡◌, refl, ap, ◌∙◌, true, [], ◌∷◌, ◌++◌, arith, length, take, length-append,
  take-append_self,
}
use native.Mathlib.Nat.{zero-add}
use Prim.Native.Nat.add
use bbcom.Modbus.Core.{Bytes, low_byte, high_byte}
use bbcom.Modbus.Crc.{at, crc16_modbus, verify_crc}
use bbcom.Modbus.Response.{parse_pdu, parse_response}
use bbcom.Modbus.Transport.{rtu, with_crc, parse_frame}

pub at-append : (xs ys : Bytes) (i : ℕ) → at (xs ++ ys) (length xs + i) ≡ at ys i
at-append [] ys i = rw zero-add
at-append (x ∷ xs) ys i = rw add.suc (at-append xs ys i)

pub length-with_crc : (xs : Bytes) → length (with_crc xs) ≡ length xs + 2
unfolding with_crc
length-with_crc xs =
    omega (arith, length-append xs (low_byte (crc16_modbus xs) ∷ high_byte (crc16_modbus xs) ∷ []))

pub take-with_crc : (xs : Bytes) → take (length (with_crc xs) - 2) (with_crc xs) ≡ xs
unfolding with_crc
take-with_crc xs =
    ap (λ n. take n (with_crc xs)) (omega (arith, length-with_crc xs)) ∙ take-append_self xs _

abbrev crc_bytes : Bytes → Bytes
crc_bytes xs = low_byte (crc16_modbus xs) ∷ high_byte (crc16_modbus xs) ∷ []

at-length : (xs ys : Bytes) → at (xs ++ ys) (length xs) ≡ at ys 0
at-length [] ys = refl
at-length (x ∷ xs) ys = at-length xs ys

pub at-with_crc :
    (xs : Bytes)
    → (at (with_crc xs) (length xs) ≡ low_byte (crc16_modbus xs))
      × (at (with_crc xs) (length xs + 1) ≡ high_byte (crc16_modbus xs))
unfolding with_crc
at-with_crc xs = (at-length xs (crc_bytes xs), at-append xs (crc_bytes xs) 1)

pub verify_crc-with_crc : (xs : Bytes) → 2 ≤ length xs → verify_crc (with_crc xs) ≡ true
unfolding verify_crc
verify_crc-with_crc xs h =
    let n : length (with_crc xs) - 2 ≡ length xs = omega (arith, length-with_crc xs) in
    let m : length (with_crc xs) - 1 ≡ length xs + 1 = omega (arith, length-with_crc xs) in
    ground (arith, n, m, length-with_crc xs, take-with_crc xs, at-with_crc xs)

-- Whatever the PDU of a framed RTU response is, it is the PDU that is read, for the framed slave.
pub parse_frame-with_crc :
    (slave fc : ℕ) (body : Bytes)
    → parse_frame rtu (with_crc (slave ∷ fc ∷ body)) ≡ parse_pdu slave (fc ∷ body)
unfolding parse_frame parse_response
parse_frame-with_crc slave fc body = ground (
  arith,
  verify_crc-with_crc (slave ∷ fc ∷ body),
  length-with_crc (slave ∷ fc ∷ body),
  take-with_crc (slave ∷ fc ∷ body),
  first,
)
  where
    first : at (with_crc (slave ∷ fc ∷ body)) 0 ≡ slave
    first = unfold with_crc in refl
