-- ===== src/Base/Sort.antt =====
-- Lists: a filter by a Boolean test, and the stable sort by a comparison of `Array.prototype.sort`.
use mathlib.Core.Path.{◌≡◌, refl}
use mathlib.Core.Bool.{Bool, true, false}
use mathlib.Core.List.{List, [], ◌∷◌, ◌++◌, Perm}
use mathlib.Core.List.Perm
use bbcom.Base.Tests.{if◌then◌else◌}

-- What holds of both branches holds of the conditional.
pub if-both {ℓ κ} :
    {A : Type ℓ} (P : A → Type κ) (b : Bool) (x y : A)
    → (b ≡ true → P x)
    → (b ≡ false → P y)
    → P (if b then x else y)
if-both P true x y f g = f refl
if-both P false x y f g = g refl

unfoldable pub keep {ℓ} : {A : Type ℓ} → (A → Bool) → List A → List A
keep test [] = []
keep test (x ∷ xs) = let rest = keep test xs in if test x then x ∷ rest else rest

abbrev pub Each {ℓ κ} : {A : Type ℓ} → (A → Type κ) → List A → Type κ
Each P [] = Unit
Each P (x ∷ xs) = P x × Each P xs

pub Each-append {ℓ κ} :
    {A : Type ℓ} (P : A → Type κ) (l r : List A) → Each P l → Each P r → Each P (l ++ r)
Each-append P [] r ls rs = rs
Each-append P (x ∷ l) r (p, ls) rs = (p, Each-append P l r ls rs)

pub keep-Each {ℓ} :
    {A : Type ℓ} (test : A → Bool) (xs : List A) → Each (λ x. test x ≡ true) (keep test xs)
unfolding keep
keep-Each test [] = tt
keep-Each test (x ∷ xs) =
    if-both (Each (λ x. test x ≡ true)) (test x) (x ∷ keep test xs) (keep test xs)
      (λ yes_x. (yes_x, keep-Each test xs)) (λ no_x. keep-Each test xs)

-- `after x y` is the test that the comparison of `x` and `y` is positive.
module _ {ℓ} {A : Type ℓ} (after : A → A → Bool) where
  unfoldable pub insert_stable : A → List A → List A
  insert_stable x [] = x ∷ []
  insert_stable x (y ∷ ys) =
      let rest = insert_stable x ys in if after x y then y ∷ rest else x ∷ y ∷ ys

  unfoldable pub sort : List A → List A
  unfolding insert_stable
  sort [] = []
  sort (x ∷ xs) = insert_stable x (sort xs)

  -- No element stands before one that it comes after.
  abbrev pub IsSorted : List A → Type 0
  IsSorted [] = Unit {0}
  IsSorted (x ∷ []) = Unit {0}
  IsSorted (x ∷ y ∷ ys) = (after x y ≡ false) × IsSorted (y ∷ ys)

  insert_stable-perm : (x : A) (ys : List A) → Perm (insert_stable x ys) (x ∷ ys)
  unfolding insert_stable
  insert_stable-perm x [] = Perm.rfl
  insert_stable-perm x (y ∷ ys) =
      if-both (λ l. Perm l (x ∷ y ∷ ys)) (after x y) (y ∷ insert_stable x ys) (x ∷ y ∷ ys)
        (λ e. Perm.trans (Perm.cons y (insert_stable-perm x ys)) (Perm.swap x y ys)) (λ e. Perm.rfl)

  pub sort-perm : (xs : List A) → Perm (sort xs) xs
  unfolding sort
  sort-perm [] = Perm.rfl
  sort-perm (x ∷ xs) = Perm.trans (insert_stable-perm x (sort xs)) (Perm.cons x (sort-perm xs))

  pub insert_stable-Each {κ} :
      (P : A → Type κ) (x : A) (ys : List A) → P x → Each P ys → Each P (insert_stable x ys)
  unfolding insert_stable
  insert_stable-Each P x [] p ps = (p, tt)
  insert_stable-Each P x (y ∷ ys) p (q, ps) =
      if-both (Each P) (after x y) (y ∷ insert_stable x ys) (x ∷ y ∷ ys)
        (λ e. (q, insert_stable-Each P x ys p ps)) (λ e. (p, (q, ps)))

  pub sort-Each {κ} : (P : A → Type κ) (xs : List A) → Each P xs → Each P (sort xs)
  unfolding sort
  sort-Each P [] ps = tt
  sort-Each P (x ∷ xs) (p, ps) = insert_stable-Each P x (sort xs) p (sort-Each P xs ps)

  -- Both heads that an insertion may give belong behind `y`.
  insert_stable-behind :
      (x y z : A) (ys : List A)
      → after y x ≡ false
      → after y z ≡ false
      → IsSorted (insert_stable x (z ∷ ys))
      → IsSorted (y ∷ insert_stable x (z ∷ ys))
  unfolding insert_stable
  insert_stable-behind x y z ys e d =
      if-both (λ l. IsSorted l → IsSorted (y ∷ l)) (after x z) (z ∷ insert_stable x ys) (x ∷ z ∷ ys)
        (λ c s. (d, s)) (λ c s. (e, s))

  module _ (asymmetric : (x y : A) → after x y ≡ true → after y x ≡ false) where
    insert_stable-IsSorted : (x : A) (ys : List A) → IsSorted ys → IsSorted (insert_stable x ys)
    unfolding insert_stable
    insert_stable-IsSorted x [] s = tt
    insert_stable-IsSorted x (y ∷ []) s =
        if-both IsSorted (after x y) (y ∷ x ∷ []) (x ∷ y ∷ []) (λ e. (asymmetric x y e, tt))
          (λ e. (e, tt))
    insert_stable-IsSorted x (y ∷ z ∷ ys) (s, t) =
        if-both IsSorted (after x y) (y ∷ insert_stable x (z ∷ ys)) (x ∷ y ∷ z ∷ ys)
          (λ e.
            insert_stable-behind x y z ys (asymmetric x y e) s
              (insert_stable-IsSorted x (z ∷ ys) t))
          (λ e. (e, (s, t)))

    pub sort-IsSorted : (xs : List A) → IsSorted (sort xs)
    unfolding sort
    sort-IsSorted [] = tt
    sort-IsSorted (x ∷ xs) = insert_stable-IsSorted x (sort xs) (sort-IsSorted xs)
