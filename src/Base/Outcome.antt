-- ===== src/Base/Outcome.antt =====
-- A computation that returns or throws.
use mathlib.Core.Path.{◌≡◌, refl}

pub data Result {ℓ κ} (E : Type κ) (A : Type ℓ) : Type (ℓ ⊔ κ) where
  ok : A → Result E A
  err : E → Result E A

infixl 5 ◌>>=◌
abbrev pub ◌>>=◌ {ℓ κ ι} :
    {E : Type κ} {A : Type ℓ} {B : Type ι} → Result E A → (A → Result E B) → Result E B
ok a >>= f = f a
err e >>= f = err e

-- What the first part of a chain has returned, if the chain returns.
pub result-bind {ℓ κ ι} :
    {E : Type κ} {A : Type ℓ} {B : Type ι} (first : Result E A) {rest : A → Result E B} {b : B}
    → (first >>= rest) ≡ ok b
    → (a : A) × (rest a ≡ ok b) × (first ≡ ok a)
result-bind (err thrown) e = cc
result-bind (ok a) e = (a, e, refl)

pub ok-injective {ℓ κ} :
    {E : Type κ} {A : Type ℓ} {a b : A} → ◌≡◌ {A = Result E A} (ok a) (ok b) → a ≡ b
ok-injective e = cc
