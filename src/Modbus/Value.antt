-- ===== src/Modbus/Value.antt =====
-- src/lib/modbus/modbus-core.ts: the conversion between values and register words.
-- JavaScript numbers are an interface: the code looks at whether one is finite and at its floor, makes
-- some from integers, and passes others through a `DataView` as binary32.
pub mod RoundTrip
pub mod Blocks
use bbcom.Base.{
  ℕ, zero, suc, ◌+◌, ◌-◌, ◌*◌, ◌/◌, ◌%◌, ◌^◌, ◌≤◌, ◌<◌, ◌≡◌, Bool, true, false, not, ◌&&◌, ◌||◌,
  Option, none, some, List, [], ◌∷◌, ◌++◌, Result, ok, err, ◌>>=◌, ltb, leb, ◌==◌, if◌then◌else◌,
}
use bbcom.Base.Number.{Number, nan, infinity, minus_infinity, finite, ℤ, pos, negsuc, is_finite}
use bbcom.Modbus.Core.{
  ValueType, bool, uint8, int8, uint16, int16, uint32_be, int32_be, float32_be, uint32_le, int32_le,
  float32_le, Fallible, range_error,
}

-- The two halves of a binary32, high half first, and a double's view as a number. An integer of at
-- most 53 bits is a double.
pub record Doubles : Type 1 where
  pub Double : Type 0
  pub number : Double → Number
  pub of_ℤ : ℤ → Double
  pub decode_float32 : ℕ → ℕ → Double
  pub encode_float32 : Double → ℕ × ℕ
  pub number-pos : (n : ℕ) → n ≤ 2 ^ 53 → number (of_ℤ (pos n)) ≡ finite (pos n) false
  pub number-negsuc : (n : ℕ) → n < 2 ^ 53 → number (of_ℤ (negsuc n)) ≡ finite (negsuc n) false

-- The register at an index; `undefined` counts as 0.
abbrev pub reg_at : List ℕ → ℕ → ℕ
reg_at [] i = 0
reg_at (r ∷ regs) zero = r
reg_at (r ∷ regs) (suc i) = reg_at regs i

-- The number `v - 2 ^ w` if the top one of the `w` bits of `v` is set, and `v` if not.
signed : ℕ → ℕ → ℤ
signed half v = if leb half v then negsuc (half + half - v - 1) else pos v

pub to_int8 : ℕ → ℤ
unfolding signed
to_int8 u8 = signed 0x80 (u8 % 0x100)

pub to_int16 : ℕ → ℤ
unfolding signed
to_int16 u16 = signed 0x8000 (u16 % 0x10000)

pub to_int32 : ℕ → ℕ → ℤ
unfolding signed
to_int32 hi lo = signed 0x8000_0000 (hi % 0x10000 * 0x10000 + lo % 0x10000)

-- The canonical high and low word.
pub u32_halves : ValueType → List ℕ → ℕ × ℕ
u32_halves uint32_le regs = (reg_at regs 1 % 2 ^ 32, reg_at regs 0 % 2 ^ 32)
u32_halves int32_le regs = (reg_at regs 1 % 2 ^ 32, reg_at regs 0 % 2 ^ 32)
u32_halves float32_le regs = (reg_at regs 1 % 2 ^ 32, reg_at regs 0 % 2 ^ 32)
u32_halves type regs = (reg_at regs 0 % 2 ^ 32, reg_at regs 1 % 2 ^ 32)

pub emit_u32_words : ValueType → ℕ → ℕ → List ℕ
emit_u32_words uint32_le hi lo = lo % 0x10000 ∷ hi % 0x10000 ∷ []
emit_u32_words int32_le hi lo = lo % 0x10000 ∷ hi % 0x10000 ∷ []
emit_u32_words float32_le hi lo = lo % 0x10000 ∷ hi % 0x10000 ∷ []
emit_u32_words type hi lo = hi % 0x10000 ∷ lo % 0x10000 ∷ []

-- `Math.trunc` of a finite number of floor `n`.
pub trunc : ℤ → Bool → ℤ
trunc (pos n) fraction = pos n
trunc (negsuc n) false = negsuc n
trunc (negsuc zero) true = pos 0
trunc (negsuc (suc n)) true = negsuc n

-- `Math.max(-low, Math.min(high, z))` at natural numbers `low` and `high`.
pub clamp : ℕ → ℕ → ℤ → ℤ
clamp low high (pos n) = if ltb high n then pos high else pos n
clamp zero high (negsuc n) = pos 0
clamp (suc low) high (negsuc n) = if ltb low n then negsuc low else negsuc n

-- `clampInteger(value, -low, high)`; `none` is NaN.
pub clamp_integer : Number → ℕ → ℕ → Option ℤ
unfolding trunc clamp
clamp_integer nan low high = none
clamp_integer infinity low high = some (pos high)
clamp_integer minus_infinity low high = some (clamp low high (negsuc low))
clamp_integer (finite n f) low high = some (clamp low high (trunc n f))

-- The bits of an integer below `2 ^ w = m`; NaN has none.
pub bits_below : ℕ → Option ℤ → ℕ
bits_below m none = 0
bits_below m (some (pos n)) = n % m
bits_below m (some (negsuc n)) = m - 1 - n % m

-- `value === 0`
abbrev pub is_zero : Number → Bool
is_zero (finite (pos n) f) = n == 0 && not f
is_zero _ = false

-- The words of a 32-bit integer.
pub emit_u32 : ValueType → ℕ → List ℕ
unfolding emit_u32_words
emit_u32 type u32 = emit_u32_words type (u32 / 0x10000 % 0x10000) (u32 % 0x10000)

-- The branches of `decodeValue` that make an integer; the binary32 types are not among them.
pub decode_integer : ValueType → List ℕ → ℤ
unfolding to_int8 to_int16 to_int32 u32_halves
decode_integer bool regs = pos (if reg_at regs 0 == 0 then 0 else 1)
decode_integer uint8 regs = pos (reg_at regs 0 / 256 % 256)
decode_integer int8 regs = to_int8 (reg_at regs 0 / 256 % 256)
decode_integer uint16 regs = pos (reg_at regs 0 % 0x10000)
decode_integer int16 regs = to_int16 (reg_at regs 0)
decode_integer uint32_be regs = let (hi, lo) = u32_halves uint32_be regs in pos (hi * 0x10000 + lo)
decode_integer uint32_le regs = let (hi, lo) = u32_halves uint32_le regs in pos (hi * 0x10000 + lo)
decode_integer int32_be regs = let (hi, lo) = u32_halves int32_be regs in to_int32 hi lo
decode_integer int32_le regs = let (hi, lo) = u32_halves int32_le regs in to_int32 hi lo
decode_integer _ regs = pos 0

-- The branches of `encodeValue` for the types other than binary32, at a finite value.
unfoldable pub encode_integer : ValueType → Number → List ℕ
unfolding clamp_integer bits_below emit_u32
encode_integer bool value = (if is_zero value then 0 else 1) ∷ []
encode_integer uint8 value = bits_below (2 ^ 24) (clamp_integer value 0 0xff) * 256 ∷ []
encode_integer int8 value = bits_below 0x100 (clamp_integer value 0x80 0x7f) * 256 ∷ []
encode_integer uint16 value = bits_below (2 ^ 32) (clamp_integer value 0 0xffff) ∷ []
encode_integer int16 value = bits_below 0x10000 (clamp_integer value 0x8000 0x7fff) ∷ []
encode_integer uint32_be value =
    emit_u32 uint32_be (bits_below (2 ^ 32) (clamp_integer value 0 0xffff_ffff))
encode_integer uint32_le value =
    emit_u32 uint32_le (bits_below (2 ^ 32) (clamp_integer value 0 0xffff_ffff))
encode_integer int32_be value =
    emit_u32 int32_be (bits_below (2 ^ 32) (clamp_integer value 0x8000_0000 0x7fff_ffff))
encode_integer int32_le value =
    emit_u32 int32_le (bits_below (2 ^ 32) (clamp_integer value 0x8000_0000 0x7fff_ffff))
encode_integer _ value = []

module _ (doubles : Doubles) where
  open doubles use {Double, number, of_ℤ, decode_float32, encode_float32}

  pub decode_value : ValueType → List ℕ → Double
  decode_value float32_be regs =
      let (hi, lo) = u32_halves float32_be regs in decode_float32 (hi % 0x10000) (lo % 0x10000)
  decode_value float32_le regs =
      let (hi, lo) = u32_halves float32_le regs in decode_float32 (hi % 0x10000) (lo % 0x10000)
  decode_value type regs = of_ℤ (decode_integer type regs)

  unfoldable pub encode_finite : ValueType → Double → List ℕ
  encode_finite float32_be value =
      let (hi, lo) = encode_float32 value in emit_u32_words float32_be hi lo
  encode_finite float32_le value =
      let (hi, lo) = encode_float32 value in emit_u32_words float32_le hi lo
  encode_finite type value = encode_integer type (number value)

  unfoldable pub encode_value : ValueType → Double → Fallible (List ℕ)
  encode_value type value =
      if is_finite (number value) then ok (encode_finite type value) else err range_error
