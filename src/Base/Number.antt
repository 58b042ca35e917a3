-- ===== src/Base/Number.antt =====
-- JavaScript numbers as far as the code looks at them: whether a number is finite, its floor, and
-- whether it has a fraction. Every finite double is its floor plus a fraction in [0, 1), so `<`
-- against an integer, `Math.floor`, `Math.trunc` and `Number.isInteger` are functions of the two.
use Prim.Native.Nat.{ℕ}
use mathlib.Core.Bool.{Bool, true, false, not, ◌&&◌, ◌||◌}
use bbcom.Base.Tests.{ltb, leb}

-- `negsuc n` is -(n + 1).
pub data ℤ : Type 0 where
  pos : ℕ → ℤ
  negsuc : ℕ → ℤ

-- `finite n f` is a number of floor `n`; it has a fraction when `f` holds.
pub data Number : Type 0 where
  nan : Number
  infinity : Number
  minus_infinity : Number
  finite : ℤ → Bool → Number

-- A value of type `unknown`.
pub data Unknown : Type 0 where
  number : Number → Unknown
  other : Unknown

-- The integer is below the natural number.
abbrev pub lt_ℕ : ℤ → ℕ → Bool
lt_ℕ (pos n) k = ltb n k
lt_ℕ (negsuc n) k = true

abbrev pub to_ℕ : ℤ → ℕ
to_ℕ (pos n) = n
to_ℕ (negsuc n) = 0

abbrev pub is_finite : Number → Bool
is_finite (finite n f) = true
is_finite _ = false

abbrev pub is_integer : Number → Bool
is_integer (finite n f) = not f
is_integer _ = false

-- `x < k` at a natural number `k`.
abbrev pub below : Number → ℕ → Bool
below nan k = false
below infinity k = false
below minus_infinity k = true
below (finite n f) k = lt_ℕ n k

-- `x > k` at a natural number `k`.
abbrev pub above : Number → ℕ → Bool
above nan k = false
above infinity k = true
above minus_infinity k = false
above (finite (pos n) f) k = ltb k n || ((leb k n) && f)
above (finite (negsuc n) f) k = false

-- `x <= k` at a natural number `k`.
abbrev pub at_most : Number → ℕ → Bool
at_most nan k = false
at_most infinity k = false
at_most minus_infinity k = true
at_most (finite n f) k = not (above (finite n f) k)

-- The number `n` as a JavaScript number.
abbrev pub of_ℕ : ℕ → Number
of_ℕ n = finite (pos n) false
