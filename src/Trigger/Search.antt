-- ===== src/Trigger/Search.antt =====
-- `containsSubarray` of src/lib/trigger-engine.ts, and the `indexOf` of a string that is not -1.
use bbcom.Base.{
  ℕ, zero, suc, ◌+◌, ◌-◌, ◌≤◌, ◌<◌, ◌≡◌, ◌↔◌, refl, ap, ap₂, sym, ◌∙◌, Bool, true, false, not, ◌&&◌,
  ◌||◌, List, [], ◌∷◌, ◌++◌, arith, ltb, ◌==◌, if◌then◌else◌, length, take, drop, length-append,
  length-drop, Bool-cases, inl, inr, ==_iff, subst, take-append-drop,
}

-- An access that the bounds of the loops keep in range.
at : List ℕ → ℕ → ℕ
at [] i = 0
at (x ∷ xs) zero = x
at (x ∷ xs) (suc i) = at xs i

-- The inner loop from `j` on.
unfoldable pub agrees : ℕ → List ℕ → List ℕ → ℕ → ℕ → Bool
unfolding at
agrees zero haystack needle i j = true
agrees (suc rounds) haystack needle i j =
    let rest = agrees rounds haystack needle i (j + 1) in
    if not (at haystack (i + j) == at needle j) then false else rest

-- The outer loop from `i` on.
unfoldable pub contains_from : ℕ → List ℕ → List ℕ → ℕ → Bool
unfolding agrees
contains_from zero haystack needle i = false
contains_from (suc rounds) haystack needle i =
    let rest = contains_from rounds haystack needle (i + 1) in
    if agrees (length needle) haystack needle i 0 then true else rest

unfoldable pub contains_subarray : List ℕ → List ℕ → Bool
unfolding contains_from
contains_subarray haystack needle =
    if length needle == 0
    then false
    else (if ltb (length haystack) (length needle)
        then false
        else contains_from (length haystack - length needle + 1) haystack needle 0)

unfoldable pub starts_with : List ℕ → List ℕ → Bool
starts_with text [] = true
starts_with [] (d ∷ pattern) = false
starts_with (c ∷ text) (d ∷ pattern) = c == d && starts_with text pattern

unfoldable pub includes : List ℕ → List ℕ → Bool
unfolding starts_with
includes [] pattern = starts_with [] pattern
includes (c ∷ text) pattern = starts_with (c ∷ text) pattern || includes text pattern

-- The bytes agree wherever the loop looks.
agrees-at :
    (rounds : ℕ) (haystack needle : List ℕ) (i j q : ℕ)
    → agrees rounds haystack needle i j ≡ true
    → j ≤ q
    → q < j + rounds
    → at haystack (i + q) ≡ at needle q
unfolding agrees
agrees-at zero haystack needle i j q e l h = absurd (omega arith)
agrees-at (suc rounds) haystack needle i j q e l h = elim (Bool-cases (q == j)) [
  | inl s ↦ subst (λ k. at haystack (i + k) ≡ at needle k) (sym ((==_iff q j).0 s)) (ground arith)
  | inr d ↦ agrees-at rounds haystack needle i (j + 1) q (ground arith) (ground arith) (omega arith)
]

agrees_all :
    (rounds : ℕ) (haystack needle : List ℕ) (i j : ℕ)
    → ((q : ℕ) → j ≤ q → q < j + rounds → at haystack (i + q) ≡ at needle q)
    → agrees rounds haystack needle i j ≡ true
unfolding agrees
agrees_all zero haystack needle i j f = refl
agrees_all (suc rounds) haystack needle i j f = ground (
  arith,
  f j (omega arith) (omega arith),
  agrees_all rounds haystack needle i (j + 1) λ q l h. f q (omega arith) (omega arith),
)

at-append : (pre rest : List ℕ) (k : ℕ) → at (pre ++ rest) (length pre + k) ≡ at rest k
unfolding at
at-append [] rest k = ap (at rest) (omega arith)
at-append (x ∷ pre) rest k = ap (at (x ∷ (pre ++ rest))) suc_out ∙ at-append pre rest k
  where
    suc_out : suc (length pre) + k ≡ suc (length pre + k)
    suc_out = omega arith

at-append_left : (xs rest : List ℕ) (k : ℕ) → k < length xs → at (xs ++ rest) k ≡ at xs k
unfolding at
at-append_left [] rest k h = absurd (omega arith)
at-append_left (x ∷ xs) rest zero h = refl
at-append_left (x ∷ xs) rest (suc k) h = at-append_left xs rest k (omega arith)

at-drop : (i k : ℕ) (xs : List ℕ) → at (drop i xs) k ≡ at xs (i + k)
unfolding at
at-drop zero k xs = ap (at xs) (omega arith)
at-drop (suc i) k [] = refl
at-drop (suc i) k (x ∷ xs) = at-drop i k xs ∙ ap (at (x ∷ xs)) suc_out
  where
    suc_out : suc (i + k) ≡ suc i + k
    suc_out = omega arith

-- A list that another agrees with from its start on begins with it.
prefix_of :
    (xs needle : List ℕ)
    → length needle ≤ length xs
    → ((k : ℕ) → k < length needle → at xs k ≡ at needle k)
    → xs ≡ needle ++ drop (length needle) xs
unfolding at
prefix_of xs [] h f = refl
prefix_of [] (d ∷ needle) h f = absurd (omega arith)
prefix_of (x ∷ xs) (d ∷ needle) h f =
    ap₂ ◌∷◌ (f 0 (omega arith)) (prefix_of xs needle (omega arith) λ k l. f (suc k) (omega arith))

-- A place where the pattern stands.
abbrev pub Occurs : List ℕ → List ℕ → Type 0
Occurs haystack needle = (pre : List ℕ) × (post : List ℕ) × (haystack ≡ pre ++ (needle ++ post))

contains_from-Occurs :
    (rounds : ℕ) (haystack needle : List ℕ) (i : ℕ)
    → i + rounds + length needle ≤ length haystack + 1
    → contains_from rounds haystack needle i ≡ true
    → (m : ℕ) × (m + length needle ≤ length haystack)
      × (agrees (length needle) haystack needle m 0 ≡ true)
unfolding contains_from
contains_from-Occurs zero haystack needle i h e = cc
contains_from-Occurs (suc rounds) haystack needle i h e =
    elim (Bool-cases (agrees (length needle) haystack needle i 0)) [
      | inl a ↦ (i, omega arith, a)
      | inr d ↦ contains_from-Occurs rounds haystack needle (i + 1) (omega arith) (ground arith)
    ]

contains_from-found :
    (rounds : ℕ) (haystack needle : List ℕ) (i m : ℕ)
    → i ≤ m
    → m < i + rounds
    → agrees (length needle) haystack needle m 0 ≡ true
    → contains_from rounds haystack needle i ≡ true
unfolding contains_from
contains_from-found zero haystack needle i m l h e = absurd (omega arith)
contains_from-found (suc rounds) haystack needle i m l h e = elim (Bool-cases (i == m)) [
  | inl s ↦ ground (
    arith,
    subst (λ k. agrees (length needle) haystack needle k 0 ≡ true) (sym ((==_iff i m).0 s)) e,
  )
  | inr d ↦
      ground
        (arith, contains_from-found rounds haystack needle (i + 1) m (ground arith) (omega arith) e)
]

agrees-Occurs :
    (haystack needle : List ℕ) (m : ℕ)
    → m + length needle ≤ length haystack
    → agrees (length needle) haystack needle m 0 ≡ true
    → Occurs haystack needle
agrees-Occurs haystack needle m h e = (
  take m haystack,
  drop (length needle) (drop m haystack),
  sym (take-append-drop m haystack)
      ∙ ap (λ l. take m haystack ++ l)
          (prefix_of (drop m haystack) needle (omega (arith, length-drop m haystack)) λ k l.
            at-drop m k haystack
            ∙ agrees-at (length needle) haystack needle m 0 k e (omega arith) (omega arith)),
)

Occurs-agrees :
    (pre needle post : List ℕ)
    → agrees (length needle) (pre ++ (needle ++ post)) needle (length pre) 0 ≡ true
Occurs-agrees pre needle post =
    agrees_all (length needle) (pre ++ (needle ++ post)) needle (length pre) 0
      λ q l h. at-append pre (needle ++ post) q ∙ at-append_left needle post q (omega arith)

found :
    (haystack needle : List ℕ)
    → contains_subarray haystack needle ≡ true
    → (1 ≤ length needle) × Occurs haystack needle
unfolding contains_subarray
found haystack needle e =
    let places = length haystack - length needle + 1 in
    let (n, l, c) : (1 ≤ length needle)
        × (length needle ≤ length haystack)
        × (contains_from places haystack needle 0 ≡ true) =
      (ground arith, ground arith, ground arith) in
    let (m, h, a) = contains_from-Occurs places haystack needle 0 (omega arith) c in
    (n, agrees-Occurs haystack needle m h a)

finds :
    (haystack needle : List ℕ)
    → 1 ≤ length needle
    → Occurs haystack needle
    → contains_subarray haystack needle ≡ true
unfolding contains_subarray
finds haystack needle n (pre, post, e) =
    let len : length haystack ≡ length pre + (length needle + length post) =
      ap length e
      ∙ length-append pre (needle ++ post)
      ∙ ap (λ k. length pre + k) (length-append needle post) in
    ground (
      arith,
      contains_from-found (length haystack - length needle + 1) haystack needle 0 (length pre)
          (omega arith) (omega arith)
          (subst (λ l. agrees (length needle) l needle (length pre) 0 ≡ true) (sym e)
            (Occurs-agrees pre needle post)),
    )

-- `containsSubarray` finds a needle exactly where it is not empty and stands in the haystack.
pub contains_subarray_lem :
    (haystack needle : List ℕ)
    → (contains_subarray haystack needle ≡ true) ↔ ((1 ≤ length needle) × Occurs haystack needle)
contains_subarray_lem haystack needle = (found haystack needle, λ (n, o). finds haystack needle n o)

starts_with-split :
    (text pattern : List ℕ)
    → starts_with text pattern ≡ true
    → text ≡ pattern ++ drop (length pattern) text
unfolding starts_with
starts_with-split text [] e = refl
starts_with-split [] (d ∷ pattern) e = cc
starts_with-split (c ∷ text) (d ∷ pattern) e =
    ap₂ ◌∷◌ (ground arith) (starts_with-split text pattern (ground arith))

starts_with-append : (pattern post : List ℕ) → starts_with (pattern ++ post) pattern ≡ true
unfolding starts_with
starts_with-append [] post = starts_with_nil post
  where
    starts_with_nil : (text : List ℕ) → starts_with text [] ≡ true
    starts_with_nil [] = refl
    starts_with_nil (c ∷ text) = refl
starts_with-append (d ∷ pattern) post = ground (arith, starts_with-append pattern post)

included : (text pattern : List ℕ) → includes text pattern ≡ true → Occurs text pattern
unfolding includes
included [] pattern e = ([], drop (length pattern) [], starts_with-split [] pattern e)
included (c ∷ text) pattern e = elim (Bool-cases (starts_with (c ∷ text) pattern)) [
  | inl s ↦ ([], drop (length pattern) (c ∷ text), starts_with-split (c ∷ text) pattern s)
  | inr d ↦
      let (pre, post, o) = included text pattern (ground arith) in (c ∷ pre, post, ap (◌∷◌ c) o)
]

includes-append : (pre pattern post : List ℕ) → includes (pre ++ (pattern ++ post)) pattern ≡ true
unfolding includes
includes-append [] pattern post = front (pattern ++ post) pattern (starts_with-append pattern post)
  where
    front : (text pattern : List ℕ) → starts_with text pattern ≡ true → includes text pattern ≡ true
    front [] pattern e = e
    front (c ∷ text) pattern e = ground arith
includes-append (c ∷ pre) pattern post = ground (arith, includes-append pre pattern post)

-- `indexOf` finds a pattern exactly where it stands in the text.
pub includes_lem : (text pattern : List ℕ) → (includes text pattern ≡ true) ↔ Occurs text pattern
includes_lem text pattern = (
  included text pattern,
  λ (pre, post, e).
      subst (λ l. includes l pattern ≡ true) (sym e) (includes-append pre pattern post),
)
