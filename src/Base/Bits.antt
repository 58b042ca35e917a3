-- ===== src/Base/Bits.antt =====
-- Bounds and sums of `bit_xor` and `bit_or`, which the tactics take for unknowns.
use Prim.Native.Nat.{
  ℕ, zero, suc, ◌+◌, ◌/◌, ◌%◌, ◌^◌, ◌≤◌, ◌<◌, bit_or, bit_xor, digits, differ, bit_xor-bitwise,
}
use native.Mathlib.Nat.{pow-suc}
use mathlib.Core.Path.{◌≡◌, refl}
use mathlib.Core.Bool.{Bool, true, ◌&&◌}
use native.Mathlib.Omega.{arith}
use native.Mathlib.Decide.{dec_lt}
use bbcom.Base.Tests.{ltb, ◌==◌, if◌then◌else◌, ==_iff, lt→ltb}

differ-le : (x y : ℕ) → x ≤ 1 → y ≤ 1 → differ x y ≤ 1
differ-le zero y p q = q
differ-le (suc x) zero p q = p
differ-le (suc x) (suc y) p q = differ-le x y (omega arith) (omega arith)

xor_digits-lt : (n k a b : ℕ) → a < 2 ^ k → b < 2 ^ k → digits (λ y. y) differ n a b < 2 ^ k
xor_digits-lt zero k a b p q = q
xor_digits-lt (suc n) k zero b p q = q
xor_digits-lt (suc n) zero (suc a) b p q = absurd (omega arith)
xor_digits-lt (suc n) (suc k) (suc a) b p q = omega (
  arith,
  pow-suc 2 k,
  xor_digits-lt n k (suc a / 2) (b / 2) (omega (arith, pow-suc 2 k)) (omega (arith, pow-suc 2 k)),
  differ-le (suc a % 2) (b % 2) (omega arith) (omega arith),
)

-- Two numbers of `k` bits have an exclusive or of `k` bits.
pub bit_xor-lt : (k a b : ℕ) → a < 2 ^ k → b < 2 ^ k → bit_xor a b < 2 ^ k
bit_xor-lt k a b p q = rw bit_xor-bitwise (xor_digits-lt a k a b p q)

-- A test passed by every number below a bound, by evaluation.
unfoldable pub table : (ℕ → Bool) → ℕ → Bool
table test zero = true
table test (suc bound) = table test bound && test bound

pub table-lookup :
    (test : ℕ → Bool) {bound : ℕ} (x : ℕ) → x < bound → table test bound ≡ true → test x ≡ true
unfolding table
table-lookup test {bound = zero} x small passed = elim small [ ]
table-lookup test {bound = suc k} x small passed = elim (dec_lt x k) [
  | yes below ↦ ground (arith, table-lookup test {bound = k} x below)
  | no above ↦ let last : x ≡ k = omega arith in rw last (ground arith)
]

or_table :
    table (λ k. table (λ x. if ltb x (2 ^ k) then bit_or x (2 ^ k) == x + 2 ^ k else true) 256) 8
    ≡ true
unfolding table
or_table = refl

-- Setting the bit `k` of a number below `2 ^ k` adds `2 ^ k`.
pub bit_or_next : (k x : ℕ) → k < 8 → x < 256 → x < 2 ^ k → bit_or x (2 ^ k) ≡ x + 2 ^ k
bit_or_next k x hk hx h =
    (==_iff _ _).0 (rw (lt→ltb x (2 ^ k) h) at (table-lookup _ x hx (table-lookup _ k hk or_table)))
