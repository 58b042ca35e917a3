-- ===== src/Parser/Search.antt =====
-- `indexOfSubarrayBytes` of src/lib/protocol-parser.ts: the first place of one sequence in another.
use bbcom.Base.{
  ℕ, zero, suc, ◌+◌, ◌-◌, Bool, true, false, not, ◌||◌, Option, none, some, List, ltb, ◌==◌,
  if◌then◌else◌, length, get_elem?, ◌≡◌, ◌≤◌, ◌<◌, arith,
}

abbrev pub Bytes : Type 0
Bytes = List ℕ

-- An access that the bounds of the loops keep in range.
at : Bytes → ℕ → ℕ
at xs i = elim (get_elem? xs i) [ none ↦ 0 | some b ↦ b ]

-- The loop over the bytes between the first and the last of the needle, from the `j`-th on.
unfoldable pub middle_matches : ℕ → Bytes → Bytes → ℕ → ℕ → Bool
unfolding at
middle_matches zero haystack needle i j = true
middle_matches (suc rounds) haystack needle i j =
    let rest = middle_matches rounds haystack needle i (j + 1) in
    if not (at haystack (i + j) == at needle j) then false else rest

unfoldable pub matches_at : Bytes → Bytes → ℕ → Bool
unfolding at middle_matches
matches_at haystack needle i =
    if not (at haystack i == at needle 0)
      || not (at haystack (i + length needle - 1) == at needle (length needle - 1))
    then false
    else middle_matches (length needle - 2) haystack needle i 1

-- The loop over the places, `rounds` of them from the `i`-th on.
unfoldable pub search_from : ℕ → Bytes → Bytes → ℕ → Option ℕ
unfolding matches_at
search_from zero haystack needle i = none
search_from (suc rounds) haystack needle i =
    let rest = search_from rounds haystack needle (i + 1) in
    if matches_at haystack needle i then some i else rest

unfoldable pub index_of_subarray_bytes : Bytes → Bytes → ℕ → Option ℕ
unfolding search_from
index_of_subarray_bytes haystack needle from =
    if length needle == 0
    then some 0
    else (if ltb (length haystack) (length needle)
        then none
        else search_from (length haystack + 1 - length needle - from) haystack needle from)

search_from-found :
    (rounds : ℕ) (haystack needle : Bytes) (i m : ℕ)
    → search_from rounds haystack needle i ≡ some m
    → (i ≤ m) × (m < i + rounds)
unfolding search_from
search_from-found zero haystack needle i m e = cc
search_from-found (suc rounds) haystack needle i m e =
    ground (arith, search_from-found rounds haystack needle (i + 1) m)

-- A place that is found leaves room for the needle.
pub index_of_found :
    (haystack needle : Bytes) (from m : ℕ)
    → index_of_subarray_bytes haystack needle from ≡ some m
    → m + length needle ≤ length haystack
unfolding index_of_subarray_bytes
index_of_found haystack needle from m e =
    ground
      (arith, search_from-found (length haystack + 1 - length needle - from) haystack needle from m)
