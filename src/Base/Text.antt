-- ===== src/Base/Text.antt =====
-- Texts as lists of UTF-16 code units, their comparison, and dictionaries with texts for keys.
use Prim.Native.Nat.{ℕ}
use mathlib.Core.Path.{◌≡◌, refl, sym, ap, ◌∙◌}
use mathlib.Core.Logic.{◌≢◌, ◌↔◌, ◌⊎◌, inl, inr}
use mathlib.Core.Bool.{Bool, true, false, ◌&&◌}
use mathlib.Core.Option.{Option, none, some}
use mathlib.Core.List.{List, [], ◌∷◌}
use native.Mathlib.Omega.{arith}
use bbcom.Base.Tests.{◌==◌, if◌then◌else◌, Bool-cases}

abbrev pub Text : Type 0
Text = List ℕ

unfoldable pub text_eq : Text → Text → Bool
text_eq [] [] = true
text_eq [] (d ∷ t) = false
text_eq (c ∷ s) [] = false
text_eq (c ∷ s) (d ∷ t) = (c == d) && text_eq s t

pub text_eq_refl : (s : Text) → text_eq s s ≡ true
unfolding text_eq
text_eq_refl [] = refl
text_eq_refl (c ∷ s) = ground (arith, text_eq_refl s)

text_eq_sound : (s t : Text) → text_eq s t ≡ true → s ≡ t
unfolding text_eq
text_eq_sound [] [] e = refl
text_eq_sound [] (d ∷ t) e = cc
text_eq_sound (c ∷ s) [] e = cc
text_eq_sound (c ∷ s) (d ∷ t) e = ground (arith, text_eq_sound s t)

pub text_eq_iff : (s t : Text) → (text_eq s t ≡ true) ↔ (s ≡ t)
text_eq_iff s t = (text_eq_sound s t, λ e. rw e (text_eq_refl t))

-- A `Map` with texts for keys, oldest entry first.
abbrev pub Dict {ℓ} : Type ℓ → Type ℓ
Dict V = List (Text × V)

module _ {ℓ} {V : Type ℓ} where
  unfoldable pub lookup : Text → Dict V → Option V
  lookup k [] = none
  lookup k ((j, v) ∷ m) = if text_eq j k then some v else lookup k m

  -- `Map.set`: a known key keeps its place.
  unfoldable pub insert : Text → V → Dict V → Dict V
  insert k v [] = (k, v) ∷ []
  insert k v ((j, w) ∷ m) = if text_eq j k then (j, v) ∷ m else (j, w) ∷ insert k v m

  unfoldable pub delete : Text → Dict V → Dict V
  delete k [] = []
  delete k ((j, w) ∷ m) = let rest = delete k m in if text_eq j k then rest else (j, w) ∷ rest

  pub lookup-insert :
      (k j : Text) (v : V) (m : Dict V)
      → lookup j (insert k v m) ≡ (if text_eq k j then some v else lookup j m)
  unfolding lookup insert
  lookup-insert k j v [] = refl
  lookup-insert k j v ((i, w) ∷ m) =
      ground (arith, text_eq_iff i k, text_eq_iff i j, text_eq_iff k j, lookup-insert k j v m)

  pub lookup-delete :
      (k j : Text) (m : Dict V) → lookup j (delete k m) ≡ (if text_eq k j then none else lookup j m)
  unfolding lookup delete
  lookup-delete k j [] = ground arith
  lookup-delete k j ((i, w) ∷ m) =
      ground (arith, text_eq_iff i k, text_eq_iff i j, text_eq_iff k j, lookup-delete k j m)

-- A dictionary after an insertion: what is found is the new entry or an old one under another key.
pub lookup-insert-cases :
    (k j : Text) (n ref : ℕ) (m : Dict ℕ)
    → lookup j (insert k n m) ≡ some ref
    → ((k ≡ j) × (ref ≡ n)) ⊎ ((text_eq k j ≡ false) × (lookup j m ≡ some ref))
lookup-insert-cases k j n ref m e = ground (arith, text_eq_iff k j, lookup-insert k j n m)

-- An entry under another key stays.
pub lookup-insert_other :
    (k j : Text) (n ref : ℕ) (m : Dict ℕ)
    → lookup k m ≡ none
    → lookup j m ≡ some ref
    → lookup j (insert k n m) ≡ some ref
lookup-insert_other k j n ref m free e =
    ground (arith, lookup-insert k j n m, text_eq_iff k j, other)
  where
    other : k ≡ j → ◌≡◌ {A = Option ℕ} none (some ref)
    other same = sym free ∙ ap (λ i. lookup i m) same ∙ e

pub lookup-insert_same : (k : Text) (n : ℕ) (m : Dict ℕ) → lookup k (insert k n m) ≡ some n
lookup-insert_same k n m = ground (arith, lookup-insert k k n m, text_eq_iff k k)

pub lookup-delete-cases :
    (k j : Text) (ref : ℕ) (m : Dict ℕ)
    → lookup j (delete k m) ≡ some ref
    → (k ≢ j) × (lookup j m ≡ some ref)
lookup-delete-cases k j ref m e = (
  λ same. ground (arith, lookup-delete k j m, text_eq_iff k j),
  ground (arith, lookup-delete k j m),
)

pub lookup-delete_other :
    (k j : Text) (ref : ℕ) (m : Dict ℕ)
    → k ≢ j
    → lookup j m ≡ some ref
    → lookup j (delete k m) ≡ some ref
lookup-delete_other k j ref m other e = ground (arith, lookup-delete k j m, text_eq_iff k j)

-- No key stands twice in a dictionary.
unfoldable pub Unique {ℓ} : {V : Type ℓ} → Dict V → Type ℓ
Unique [] = Unit
Unique ((k, v) ∷ m) = (lookup k m ≡ none) × Unique m

pub insert-Unique {ℓ} :
    {V : Type ℓ} (k : Text) (v : V) (m : Dict V) → Unique m → Unique (insert k v m)
unfolding Unique lookup insert
insert-Unique k v [] u = (refl, tt)
insert-Unique k v ((j, w) ∷ m) (free, u) = elim (Bool-cases (text_eq j k)) [
  | inl same ↦ rw same (free, u)
  | inr other ↦ rw other (
    lookup-insert k j v m ∙ ground (arith, text_eq_iff j k, text_eq_iff k j),
    insert-Unique k v m u,
  )
]

pub delete-Unique {ℓ} : {V : Type ℓ} (k : Text) (m : Dict V) → Unique m → Unique (delete k m)
unfolding Unique lookup delete
delete-Unique k [] u = tt
delete-Unique k ((j, w) ∷ m) (free, u) = elim (Bool-cases (text_eq j k)) [
  | inl same ↦ rw same (delete-Unique k m u)
  | inr other ↦ rw other (ground (arith, lookup-delete k j m), delete-Unique k m u)
]

pub lookup-delete_missing {ℓ} :
    {V : Type ℓ} (k j : Text) (m : Dict V) → lookup k m ≡ none → lookup j (delete k m) ≡ lookup j m
lookup-delete_missing k j m missing = elim (Bool-cases (text_eq k j)) [
  | inl same ↦
      lookup-delete k j m
      ∙ rw same (sym (ap (λ i. lookup i m) (sym ((text_eq_iff k j).0 same)) ∙ missing))
  | inr other ↦ lookup-delete k j m ∙ rw other refl
]

-- A key that is in a dictionary below an entry is not the key of the entry.
pub lookup_below :
    (k j : Text) (v w : ℕ) (m : Dict ℕ)
    → lookup k m ≡ none
    → lookup j m ≡ some w
    → lookup j ((k, v) ∷ m) ≡ some w
unfolding lookup
lookup_below k j v w m free e = ground (arith, text_eq_iff k j, other)
  where
    other : k ≡ j → ◌≡◌ {A = Option ℕ} none (some w)
    other same = sym free ∙ ap (λ i. lookup i m) same ∙ e

pub lookup_head {ℓ} : {V : Type ℓ} (k : Text) (v : V) (m : Dict V) → lookup k ((k, v) ∷ m) ≡ some v
unfolding lookup
lookup_head k v m = ground (arith, text_eq_iff k k)

pub lookup-delete_absent {ℓ} :
    {V : Type ℓ} (k j : Text) (m : Dict V) → lookup j m ≡ none → lookup j (delete k m) ≡ none
lookup-delete_absent k j m e = ground (arith, lookup-delete k j m)

pub lookup-delete_gone {ℓ} :
    {V : Type ℓ} (k j : Text) (m : Dict V) → k ≡ j → lookup j (delete k m) ≡ none
lookup-delete_gone k j m same = ground (arith, lookup-delete k j m, text_eq_iff k j)
