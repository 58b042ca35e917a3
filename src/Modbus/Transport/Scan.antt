-- ===== src/Modbus/Transport/Scan.antt =====
-- What the RTU scanner finds in a buffer.
use Prim.Native.Nat.add
use native.Mathlib.Nat.{zero-add}
use bbcom.Base.{
  ℕ, zero, suc, ◌+◌, ◌-◌, ◌/◌, ◌≤◌, ◌<◌, ◌≡◌, inl, inr, refl, ap, ◌∙◌, true, some, List, [], ◌∷◌,
  arith, length, take, drop, length-take, length-drop, Option-cases,
}
use bbcom.Modbus.Core.{Bytes, low_byte}
use bbcom.Modbus.Crc.{at, crc16_modbus, crc16_modbus-lt, verify_crc}
use bbcom.Modbus.Transport.{subarray, rtu_response_length, frame_at}

at-drop : (o i : ℕ) (xs : Bytes) → at (drop o xs) i ≡ at xs (o + i)
at-drop zero i xs = rw zero-add
at-drop (suc o) i [] = refl
at-drop (suc o) i (x ∷ xs) = rw add.suc (at-drop o i xs)

at-take : (n i : ℕ) (xs : Bytes) → i < n → at (take n xs) i ≡ at xs i
at-take zero i xs h = absurd (omega arith)
at-take (suc n) i [] h = refl
at-take (suc n) zero (x ∷ xs) h = refl
at-take (suc n) (suc i) (x ∷ xs) h = at-take n i xs (omega arith)

pub at-subarray : (buf : Bytes) (o n i : ℕ) → i < n → at (subarray buf o (o + n)) i ≡ at buf (o + i)
at-subarray buf o n i h = at-take (o + n - o) i (drop o buf) (omega arith) ∙ at-drop o i buf

pub length-subarray :
    (buf : Bytes) (o n : ℕ) → o + n ≤ length buf → length (subarray buf o (o + n)) ≡ n
length-subarray buf o n h = omega (arith, length-take (o + n - o) (drop o buf), length-drop o buf)

pub take-take : {A : Type 0} (m n : ℕ) (xs : List A) → m ≤ n → take m (take n xs) ≡ take m xs
take-take zero n xs h = refl
take-take (suc m) zero xs h = absurd (omega arith)
take-take (suc m) (suc n) [] h = refl
take-take (suc m) (suc n) (x ∷ xs) h = ap (◌∷◌ x) (take-take m n xs (omega arith))

pub response_length-ge : (buf : Bytes) (o : ℕ) {n : ℕ} → rtu_response_length buf o ≡ some n → 5 ≤ n
unfolding rtu_response_length
response_length-ge buf o e = ground arith

-- What the scanner has checked of the frame that it takes.
pub record Taken (buf : Bytes) (o n : ℕ) : Type 0 where
  pub response : rtu_response_length buf o ≡ some n
  pub fits : o + n ≤ length buf
  pub low : low_byte (crc16_modbus (subarray buf o (o + n - 2))) ≡ at buf (o + n - 2)
  pub high : crc16_modbus (subarray buf o (o + n - 2)) / 256 ≡ at buf (o + n - 1)

pub frame_at-Taken : (buf : Bytes) (o n : ℕ) → frame_at buf o ≡ some n → Taken buf o n
unfolding frame_at
frame_at-Taken buf o n e = elim (Option-cases (rtu_response_length buf o)) [
  | inl nothing ↦ ground arith
  | inr (m, found) ↦ ground arith
]

pub Taken-frame_at : (buf : Bytes) (o n : ℕ) → Taken buf o n → frame_at buf o ≡ some n
unfolding frame_at
Taken-frame_at buf o n t = ground (arith, t.response, t.fits, t.low, t.high)

-- Where the parts of a frame of `m` bytes stand, read from a stretch of `n` bytes that begins with it.
record Parts (buf : Bytes) (o n m : ℕ) : Type 0 where
  body : take (m - 2) (subarray buf o (o + n)) ≡ subarray buf o (o + m - 2)
  low_at : at (subarray buf o (o + n)) (m - 2) ≡ at buf (o + m - 2)
  high_at : at (subarray buf o (o + n)) (m - 1) ≡ at buf (o + m - 1)

frame-Parts : (buf : Bytes) (o n m : ℕ) → 5 ≤ m → m ≤ n → Parts buf o n m
frame-Parts buf o n m h k = record {
  body =
      take-take (m - 2) (o + n - o) (drop o buf) (omega arith)
      ∙ ap (λ k. take k (drop o buf)) (omega arith);
  low_at = at-subarray buf o n (m - 2) (omega arith) ∙ ap (at buf) (omega arith);
  high_at = at-subarray buf o n (m - 1) (omega arith) ∙ ap (at buf) (omega arith);
}

-- The frame that the scanner takes carries its CRC.
pub Taken-verify_crc :
    (buf : Bytes) (o n : ℕ) → Taken buf o n → verify_crc (subarray buf o (o + n)) ≡ true
unfolding verify_crc
Taken-verify_crc buf o n t =
    let n5 = response_length-ge buf o t.response in
    ground (
      arith,
      length-subarray buf o n t.fits,
      frame-Parts buf o n n n5 (omega arith),
      n5,
      t.low,
      t.high,
      crc16_modbus-lt (subarray buf o (o + n - 2)),
    )

-- A stretch that carries its CRC has the two checksum bytes where the scanner looks for them.
pub verify_crc-bytes :
    (buf : Bytes) (o n m : ℕ)
    → length (subarray buf o (o + n)) ≡ m
    → 5 ≤ m
    → m ≤ n
    → verify_crc (subarray buf o (o + n)) ≡ true
    → (low_byte (crc16_modbus (subarray buf o (o + m - 2))) ≡ at buf (o + m - 2))
      × (crc16_modbus (subarray buf o (o + m - 2)) / 256 ≡ at buf (o + m - 1))
unfolding verify_crc
verify_crc-bytes buf o n m size h k e =
    ground (arith, frame-Parts buf o n m h k, crc16_modbus-lt (subarray buf o (o + m - 2)))
