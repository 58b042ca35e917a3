-- ===== src/Modbus/Crc.antt =====
-- src/lib/modbus/modbus-core.ts: CRC-16/Modbus, by a run over an array and by folding bytes.
use Prim.Native.Nat.{bit_xor}
use mathlib.Core.List.{foldl}
use bbcom.Base.{
  ℕ, zero, suc, ◌-◌, ◌/◌, ◌%◌, ◌^◌, ◌<◌, ◌≡◌, refl, Bool, false, ◌&&◌, [], ◌∷◌, arith, ltb, ◌==◌,
  if◌then◌else◌, length, take,
}
use bbcom.Base.Bits.{bit_xor-lt}
use bbcom.Modbus.Core.{Bytes, high_byte, low_byte}

-- One round of the inner loop: shift out the lowest bit, and add the polynomial if it was set.
unfoldable pub crc_round : ℕ → ℕ
crc_round crc = if crc % 2 == 1 then bit_xor (crc / 2) 0xa001 else crc / 2

-- The inner loop of `crc16Modbus`.
unfoldable pub crc_rounds : ℕ → ℕ → ℕ
crc_rounds zero crc = crc
crc_rounds (suc n) crc = crc_rounds n (crc_round crc)

-- The outer loop of `crc16Modbus`, from a running value.
unfoldable pub crc_loop : ℕ → Bytes → ℕ
crc_loop crc [] = crc
crc_loop crc (b ∷ bytes) = crc_loop (crc_rounds 8 (bit_xor crc b)) bytes

unfoldable pub crc16_modbus : Bytes → ℕ
crc16_modbus bytes = crc_loop 0xffff bytes % 0x10000

-- The loop of `crc16ModbusFoldByte`.
unfoldable pub fold_rounds : ℕ → ℕ → ℕ
fold_rounds zero crc = crc
fold_rounds (suc n) crc = fold_rounds n (if crc % 2 == 1 then bit_xor (crc / 2) 0xa001 else crc / 2)

unfoldable pub crc16_modbus_fold_byte : ℕ → ℕ → ℕ
crc16_modbus_fold_byte crc byte = fold_rounds 8 (bit_xor crc (byte % 256)) % 0x10000

-- Every element is a byte.
abbrev pub AreBytes : Bytes → Type 0
AreBytes [] = Unit {0}
AreBytes (b ∷ bytes) = (b < 256) × AreBytes bytes

pub crc16_modbus-lt : (bytes : Bytes) → crc16_modbus bytes < 2 ^ 16
unfolding crc16_modbus
crc16_modbus-lt bytes = omega arith

crc_round-lt : (crc : ℕ) → crc < 2 ^ 16 → crc_round crc < 2 ^ 16
unfolding crc_round
crc_round-lt crc h = ground (arith, bit_xor-lt 16 (crc / 2) 0xa001 (omega arith) (omega arith))

crc_rounds-lt : (n crc : ℕ) → crc < 2 ^ 16 → crc_rounds n crc < 2 ^ 16
unfolding crc_rounds
crc_rounds-lt zero crc h = h
crc_rounds-lt (suc n) crc h = crc_rounds-lt n (crc_round crc) (crc_round-lt crc h)

crc_byte-lt : (crc b : ℕ) → crc < 2 ^ 16 → b < 256 → crc_rounds 8 (bit_xor crc b) < 2 ^ 16
crc_byte-lt crc b h hb = crc_rounds-lt 8 (bit_xor crc b) (bit_xor-lt 16 crc b h (omega arith))

fold_rounds-crc_rounds : (n crc : ℕ) → fold_rounds n crc ≡ crc_rounds n crc
unfolding fold_rounds crc_rounds crc_round
fold_rounds-crc_rounds zero crc = refl
fold_rounds-crc_rounds (suc n) crc = fold_rounds-crc_rounds n _

fold_byte-rounds :
    (crc b : ℕ)
    → crc < 2 ^ 16
    → b < 256
    → crc16_modbus_fold_byte crc b ≡ crc_rounds 8 (bit_xor crc b)
unfolding crc16_modbus_fold_byte
fold_byte-rounds crc b h hb =
    let same : b % 256 ≡ b = omega arith in
    rw (same, fold_rounds-crc_rounds 8 (bit_xor crc b)) (omega (arith, crc_byte-lt crc b h hb))

crc_loop-foldl :
    (bytes : Bytes) (crc : ℕ)
    → AreBytes bytes
    → crc < 2 ^ 16
    → crc_loop crc bytes % 0x10000 ≡ foldl crc16_modbus_fold_byte crc bytes
unfolding crc_loop
crc_loop-foldl [] crc h hc = omega arith
crc_loop-foldl (b ∷ bytes) crc h hc =
    rw (fold_byte-rounds crc b hc h.0)
      (crc_loop-foldl bytes (crc_rounds 8 (bit_xor crc b)) h.1 (crc_byte-lt crc b hc h.0))

-- Over an array of bytes, `crc16Modbus` is `crc16ModbusFoldByte` folded over the bytes in order from
-- 0xFFFF, and its value has 16 bits.
pub crc16_modbus-foldl :
    (bytes : Bytes)
    → AreBytes bytes
    → (crc16_modbus bytes ≡ foldl crc16_modbus_fold_byte 0xffff bytes)
      × (crc16_modbus bytes < 2 ^ 16)
unfolding crc16_modbus
crc16_modbus-foldl bytes h = (crc_loop-foldl bytes 0xffff h (omega arith), omega arith)

-- The byte at an index, or 0 beyond the end.
abbrev pub at : Bytes → ℕ → ℕ
at [] i = 0
at (b ∷ bytes) zero = b
at (b ∷ bytes) (suc i) = at bytes i

unfoldable pub verify_crc : Bytes → Bool
verify_crc frame =
    if ltb (length frame) 4
    then false
    else (let crc = crc16_modbus (take (length frame - 2) frame) in
        low_byte crc == at frame (length frame - 2) && high_byte crc == at frame (length frame - 1))
