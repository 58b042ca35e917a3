-- ===== src/Modbus/Transport/Found.antt =====
-- The RTU scanner finds the genuine frames of a buffer from left to right, and misses none.
use native.Mathlib.Nat.{add-zero}
use bbcom.Base.{
  ℕ, zero, suc, ◌+◌, ◌-◌, ◌≤◌, ◌≡◌, refl, sym, ap, ◌∙◌, inl, inr, true, Option, none, some, List,
  [], ◌∷◌, arith, length, drop, Option-cases, Bool-cases, min, ap₂, length-take, length-drop,
  ltb→lt, ltb-false→le, ltb, subst,
}
use bbcom.Base.Number.{Number}
use bbcom.Modbus.Core.{Bytes}
use bbcom.Modbus.Crc.{verify_crc}
use bbcom.Modbus.Transport.{subarray, rtu_response_length, frame_at, scan_rtu, scan_response, rtu}
use bbcom.Modbus.Transport.Scan.{
  Taken, frame_at-Taken, Taken-frame_at, Taken-verify_crc, at-subarray, length-subarray,
  response_length-ge, verify_crc-bytes,
}

-- A complete response: its function code and byte count give its length, and its CRC is right.
pub record Genuine (f : Bytes) : Type 0 where
  pub sized : rtu_response_length f 0 ≡ some (length f)
  pub checked : verify_crc f ≡ true

-- No genuine frame starts at `j`.
abbrev pub NoFrame : Bytes → ℕ → Type 0
NoFrame buf j = (n : ℕ) → ¬ Genuine (subarray buf j (j + n))

-- No genuine frame starts at one of the `c` offsets from `lo` on.
abbrev pub Silent : Bytes → ℕ → ℕ → Type 0
Silent buf lo zero = Unit {0}
Silent buf lo (suc c) = NoFrame buf lo × Silent buf (lo + 1) c

-- From `lo` on the buffer consists of the frames, each behind a silent stretch, and of a silent rest
-- that begins at `hi`.
abbrev pub Found : Bytes → ℕ → List Bytes → ℕ → Type 0
Found buf lo [] hi = (hi ≡ lo) × Silent buf lo (length buf - lo)
Found buf lo (f ∷ fs) hi =
    (c : ℕ) × Silent buf lo c
    × (f ≡ subarray buf (lo + c) (lo + c + length f))
    × Genuine f
    × Found buf (lo + c + length f) fs hi

response_length-subarray :
    (buf : Bytes) (o n : ℕ)
    → 3 ≤ n
    → rtu_response_length (subarray buf o (o + n)) 0 ≡ rtu_response_length buf o
unfolding rtu_response_length
response_length-subarray buf o n h =
    rw (at-subarray buf o n 1 (omega arith), at-subarray buf o n 2 (omega arith))

Taken-Genuine : (buf : Bytes) (o n : ℕ) → Taken buf o n → Genuine (subarray buf o (o + n))
Taken-Genuine buf o n t = record {
  sized =
      response_length-subarray buf o n (omega (arith, response_length-ge buf o t.response))
      ∙ t.response
      ∙ ap some (sym (length-subarray buf o n t.fits));
  checked = Taken-verify_crc buf o n t;
}

-- The scanner takes a frame wherever a genuine one starts.
Genuine-Taken :
    (buf : Bytes) (o n : ℕ)
    → Genuine (subarray buf o (o + n))
    → Taken buf o (length (subarray buf o (o + n)))
Genuine-Taken buf o n g =
    let m = length (subarray buf o (o + n)) in
    let m5 = response_length-ge (subarray buf o (o + n)) 0 g.sized in
    let size : m ≡ min n (length buf - o) =
      omega (arith, length-take (o + n - o) (drop o buf), length-drop o buf) in
    let bytes = verify_crc-bytes buf o n m refl m5 (omega (arith, size)) g.checked in
    record {
      response = sym (response_length-subarray buf o n (omega (arith, m5, size))) ∙ g.sized;
      fits = omega (arith, m5, size);
      low = bytes.0;
      high = bytes.1;
    }

none-NoFrame : (buf : Bytes) (o : ℕ) → frame_at buf o ≡ none → NoFrame buf o
none-NoFrame buf o e n g = let found = Taken-frame_at buf o _ (Genuine-Taken buf o n g) in cc

short-NoFrame : (buf : Bytes) (o : ℕ) → length buf ≤ o + 4 → NoFrame buf o
short-NoFrame buf o h n g =
    let t = Genuine-Taken buf o n g in
    absurd (omega (arith, t.fits, response_length-ge (subarray buf o (o + n)) 0 g.sized))

Silent-snoc :
    (buf : Bytes) (lo c : ℕ) → Silent buf lo c → NoFrame buf (lo + c) → Silent buf lo (suc c)
Silent-snoc buf lo zero s h = (rw add-zero at h, tt)
Silent-snoc buf lo (suc c) s h =
    (s.0, Silent-snoc buf (lo + 1) c s.1 (subst (NoFrame buf) {x = lo + suc c} (omega arith) h))

-- From an offset where fewer than five bytes are left no frame starts.
Silent-short : (buf : Bytes) (c o : ℕ) → length buf ≤ o + 4 → Silent buf o c
Silent-short buf zero o h = tt
Silent-short buf (suc c) o h = (short-NoFrame buf o h, Silent-short buf c (o + 1) (omega arith))

Silent-append :
    (buf : Bytes) (c d lo : ℕ) → Silent buf lo c → Silent buf (lo + c) d → Silent buf lo (c + d)
Silent-append buf zero d lo s r =
    subst (Silent buf lo) {x = d} (omega arith)
      (subst (λ k. Silent buf k d) {x = lo + 0} (omega arith) r)
Silent-append buf (suc c) d lo s r = subst (Silent buf lo) {x = suc (c + d)} (omega arith) (
  s.0,
  Silent-append buf c d (lo + 1) s.1 (subst (λ k. Silent buf k d) {x = lo + suc c} (omega arith) r),
)

rest-Found :
    (buf : Bytes) (lo c : ℕ)
    → lo + c ≤ length buf
    → length buf ≤ lo + c + 4
    → Silent buf lo c
    → Found buf lo [] lo
rest-Found buf lo c inside h s = (
  refl,
  subst (Silent buf lo) {x = c + (length buf - lo - c)} (omega arith) (
      Silent-append buf c (length buf - lo - c) lo s
        (Silent-short buf (length buf - lo - c) (lo + c) h)),
)

scan_rtu-Found :
    (rounds : ℕ) (buf : Bytes) (lo c o : ℕ)
    → o ≡ lo + c
    → o ≤ length buf
    → length buf ≤ o + rounds
    → Silent buf lo c
    → let (frames, end) = scan_rtu rounds buf o lo in Found buf lo frames end
unfolding scan_rtu
scan_rtu-Found zero buf lo c o e inside h s = rest-Found buf lo c (omega arith) (omega arith) s
scan_rtu-Found (suc rounds) buf lo c o e inside h s = elim (Bool-cases (ltb (o + 4) (length buf))) [
  | inr short ↦
      rw short (rest-Found buf lo c (omega arith) (omega (arith, ltb-false→le _ _ short)) s)
  | inl long ↦ rw long (elim (Option-cases (frame_at buf o)) [
    | inl nothing ↦ rw nothing (
        scan_rtu-Found rounds buf lo (suc c) (o + 1) (omega arith) (omega (arith, ltb→lt _ _ long))
          (omega arith)
          (Silent-snoc buf lo c s (subst (NoFrame buf) e (none-NoFrame buf o nothing))))
    | inr (n, found) ↦
        let t = frame_at-Taken buf o n found in
        let size = length-subarray buf o n t.fits in
        let next : o + n ≡ lo + c + length (subarray buf o (o + n)) = omega (arith, size) in
        rw found (
          c,
          s,
          ap₂ (subarray buf) e next,
          Taken-Genuine buf o n t,
          subst
              (λ k.
                Found buf k (scan_rtu rounds buf (o + n) (o + n)).0
                  (scan_rtu rounds buf (o + n) (o + n)).1)
              next
              (scan_rtu-Found rounds buf (o + n) 0 (o + n) (omega arith) t.fits
                (omega (arith, response_length-ge buf o t.response)) tt),
        )
  ])
]

-- On the RTU transport `scanResponse` cuts a buffer into the genuine frames that it holds from left
-- to right: each is found at the first offset behind the one before where a genuine frame starts, and
-- the remainder is what stands behind the last of them, where no further one starts.
pub scan_response-Found :
    (buf : Bytes) (expected : Option Number)
    → (end : ℕ) × Found buf 0 (scan_response rtu buf expected).frames end
      × ((scan_response rtu buf expected).remainder ≡ drop end buf)
unfolding scan_response
scan_response-Found buf expected =
    let (frames, end) = scan_rtu (length buf) buf 0 0 in
    (end, scan_rtu-Found (length buf) buf 0 0 0 (omega arith) (omega arith) (omega arith) tt, refl)
