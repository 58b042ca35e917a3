-- ===== src/Modbus/Core.antt =====
-- src/lib/modbus/modbus-core.ts: the types, the limits and the checks that the other parts share.
-- A byte is a number below 256 and a `Uint8Array` is a list of them; a read beyond its end gives
-- `undefined`, which the bit operations of the code take for 0.
use bbcom.Base.{
  ℕ, ◌+◌, ◌-◌, ◌*◌, ◌/◌, ◌%◌, ◌≤◌, ◌<◌, ◌≡◌, Bool, true, false, not, ◌||◌, List, Result, ok, err,
  arith, ◌==◌, if◌then◌else◌, max, min, refl, ◌⊎◌, inl, inr,
}
use bbcom.Base.Number.{
  Number, is_integer, below, above, to_ℕ, finite, nan, infinity, minus_infinity, pos, negsuc, of_ℕ,
}

abbrev pub Bytes : Type 0
Bytes = List ℕ

-- `RangeError`
pub data RangeError : Type 0 where
  range_error : RangeError

abbrev pub Fallible : Type 0 → Type 0
Fallible A = Result RangeError A

pub data ValueType : Type 0 where
  bool uint8 int8 uint16 int16 uint32_be int32_be float32_be uint32_le int32_le float32_le :
      ValueType

abbrev pub read_bits_limit : ℕ
read_bits_limit = 2000

abbrev pub read_registers_limit : ℕ
read_registers_limit = 125

abbrev pub write_bits_limit : ℕ
write_bits_limit = 1968

abbrev pub write_registers_limit : ℕ
write_registers_limit = 123

abbrev pub is_byte_value_type : ValueType → Bool
is_byte_value_type uint8 = true
is_byte_value_type int8 = true
is_byte_value_type _ = false

unfoldable pub register_span : ValueType → ℕ
register_span bool = 1
register_span uint8 = 1
register_span int8 = 1
register_span uint16 = 1
register_span int16 = 1
register_span _ = 2

-- `Math.ceil(n / k)` of natural numbers.
abbrev pub ceil_div : ℕ → ℕ → ℕ
ceil_div n k = (n + (k - 1)) / k

-- At a natural number `count`, which `Math.floor` leaves alone.
unfoldable pub register_count_for_values : ValueType → ℕ → ℕ
register_count_for_values bool count = max 1 count
register_count_for_values uint8 count = ceil_div (max 1 count) 2
register_count_for_values int8 count = ceil_div (max 1 count) 2
register_count_for_values type count = max 1 count * register_span type

unfoldable pub max_value_count_for_registers : ValueType → ℕ → ℕ
max_value_count_for_registers uint8 limit = limit * 2
max_value_count_for_registers int8 limit = limit * 2
max_value_count_for_registers bool limit = limit
max_value_count_for_registers type limit = limit / register_span type

abbrev pub is_bit_fc : ℕ → Bool
is_bit_fc fc = fc == 0x01 || fc == 0x02 || fc == 0x05 || fc == 0x0f

abbrev pub is_read_fc : ℕ → Bool
is_read_fc fc = fc == 0x01 || fc == 0x02 || fc == 0x03 || fc == 0x04

-- `(n >>> 8) & 0xff` and `n & 0xff`
abbrev pub high_byte : ℕ → ℕ
high_byte n = n / 256 % 256

abbrev pub low_byte : ℕ → ℕ
low_byte n = n % 256

-- `(fc & 0x80) !== 0`
abbrev pub is_exception_fc : ℕ → Bool
is_exception_fc fc = fc / 128 % 2 == 1

-- The value of an integer that a range check has let through.
abbrev pub integer_value : Number → ℕ
integer_value (finite n f) = to_ℕ n
integer_value _ = 0

unfoldable pub assert_u16 : Number → Fallible ℕ
assert_u16 value =
    if not (is_integer value) || below value 0 || above value 0xffff
    then err range_error
    else ok (integer_value value)

unfoldable pub assert_quantity : Number → ℕ → Fallible ℕ
assert_quantity value max =
    if not (is_integer value) || below value 1 || above value max
    then err range_error
    else ok (integer_value value)

-- `Math.max(0, Math.min(high, Math.floor(n)))`
unfoldable pub clamp_natural : ℕ → Number → Number
clamp_natural high nan = nan
clamp_natural high infinity = of_ℕ high
clamp_natural high minus_infinity = of_ℕ 0
clamp_natural high (finite n f) = of_ℕ (min high (to_ℕ n))

unfoldable pub clamp_slave : Number → Number
unfolding clamp_natural
clamp_slave n = clamp_natural 247 n

unfoldable pub clamp_u16 : Number → Number
unfolding clamp_natural
clamp_u16 n = clamp_natural 0xffff n

-- A clamped number other than NaN is one that `assertU16` lets through as it is.
pub assert_u16-clamp_u16 :
    (v : Number)
    → (v ≡ nan) ⊎ ((n : ℕ) × (clamp_u16 v ≡ of_ℕ n) × (assert_u16 (clamp_u16 v) ≡ ok n))
unfolding clamp_u16 assert_u16
assert_u16-clamp_u16 nan = inl refl
assert_u16-clamp_u16 infinity = inr (0xffff, refl, refl)
assert_u16-clamp_u16 minus_infinity = inr (0, refl, refl)
assert_u16-clamp_u16 (finite n f) = inr (min 0xffff (to_ℕ n), refl, ground arith)

-- For a limit of at least 2 registers, the longest block of values for it does fit it, and one value more
-- does not.
pub register_count-max_value_count :
    (type : ValueType) (limit : ℕ)
    → 2 ≤ limit
    → (register_count_for_values type (max_value_count_for_registers type limit) ≤ limit)
      × (limit < register_count_for_values type (max_value_count_for_registers type limit + 1))
unfolding register_count_for_values max_value_count_for_registers register_span
register_count-max_value_count bool limit h = omega arith
register_count-max_value_count _ limit h = omega arith

-- `assertU16` lets through exactly the integers of 16 bits.
pub assert_u16-ok : (v : Number) {s : ℕ} → assert_u16 v ≡ ok s → (v ≡ of_ℕ s) × (s < 65536)
unfolding assert_u16
assert_u16-ok nan e = ground arith
assert_u16-ok infinity e = ground arith
assert_u16-ok minus_infinity e = ground arith
assert_u16-ok (finite (negsuc n) f) e = ground arith
assert_u16-ok (finite (pos n) f) e = ground arith

pub assert_quantity-ok :
    (n m : ℕ) {c : ℕ} → assert_quantity (of_ℕ n) m ≡ ok c → (c ≡ n) × (1 ≤ n) × (n ≤ m)
unfolding assert_quantity
assert_quantity-ok n m e = ground arith
