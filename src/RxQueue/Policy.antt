-- ===== src/RxQueue/Policy.antt =====
-- What the receive buffer of src/lib/serial-rx-queue.ts promises, on the list of the chunks that it
-- holds: no array, no head index and no byte counter.
use bbcom.Base.{
  ℕ, ◌+◌, ◌-◌, ◌≤◌, ◌<◌, ◌≡◌, refl, Bool, true, false, ◌||◌, List, [], ◌∷◌, ◌++◌, arith, ltb, leb,
  if◌then◌else◌, length, drop, length-append, length-drop, append_assoc, sym, ap, ◌∙◌, ◌⊎◌, inl,
}
use bbcom.RxQueue.{Bytes}

abbrev pub concat : List Bytes → Bytes
concat [] = []
concat (c ∷ cs) = c ++ concat cs

abbrev pub total : List Bytes → ℕ
total [] = 0
total (c ∷ cs) = length c + total cs

-- The oldest chunks are given up until the new payload fits.
unfoldable pub evict : (max_bytes max_chunks incoming : ℕ) → List Bytes → List Bytes
evict mb mc n [] = []
evict mb mc n (c ∷ cs) =
    if ltb mb (total (c ∷ cs) + n) || leb mc (length (c ∷ cs)) then evict mb mc n cs else c ∷ cs

-- The newest `max_bytes` bytes of a payload.
unfoldable pub newest : ℕ → Bytes → Bytes
newest mb bytes = drop (length bytes - mb) bytes

unfoldable pub accept : (max_bytes max_chunks : ℕ) → List Bytes → Bytes → List Bytes
accept mb mc cs bytes = evict mb mc (length bytes) cs ++ newest mb bytes ∷ []

pub length-concat : (cs : List Bytes) → length (concat cs) ≡ total cs
length-concat [] = refl
length-concat (c ∷ cs) = omega (arith, length-append c (concat cs), length-concat cs)

pub total-append : (xs ys : List Bytes) → total (xs ++ ys) ≡ total xs + total ys
total-append [] ys = omega arith
total-append (x ∷ xs) ys = omega (arith, total-append xs ys)

pub concat-append : (xs ys : List Bytes) → concat (xs ++ ys) ≡ concat xs ++ concat ys
concat-append [] ys = refl
concat-append (x ∷ xs) ys = ap (◌++◌ x) (concat-append xs ys) ∙ sym (append_assoc x _ _)

prefix-cons :
    (c : Bytes) (cs left : List Bytes) (b : Bool)
    → (gone : List Bytes) × (cs ≡ gone ++ left)
    → (gone : List Bytes) × (c ∷ cs ≡ gone ++ (if b then left else c ∷ cs))
prefix-cons c cs left true (gone, e) = (c ∷ gone, ap (◌∷◌ c) e)
prefix-cons c cs left false rest = ([], refl)

-- After the eviction the payload fits, or nothing is left.
pub evict_fits :
    (mb mc n : ℕ) (cs : List Bytes)
    → (evict mb mc n cs ≡ [])
      ⊎ ((total (evict mb mc n cs) + n ≤ mb) × (length (evict mb mc n cs) < mc))
unfolding evict
evict_fits mb mc n [] = inl refl
evict_fits mb mc n (c ∷ cs) = ground (arith, evict_fits mb mc n cs)

pub length-newest-le : (mb : ℕ) (bytes : Bytes) → length (newest mb bytes) ≤ mb
unfolding newest
length-newest-le mb bytes = omega (arith, length-drop (length bytes - mb) bytes)

-- The eviction gives up a prefix.
pub evict-suffix :
    (mb mc n : ℕ) (cs : List Bytes) → (gone : List Bytes) × (cs ≡ gone ++ evict mb mc n cs)
unfolding evict
evict-suffix mb mc n [] = ([], refl)
evict-suffix mb mc n (c ∷ cs) =
    prefix-cons c cs (evict mb mc n cs) (ltb mb (total (c ∷ cs) + n) || leb mc (length (c ∷ cs)))
      (evict-suffix mb mc n cs)
