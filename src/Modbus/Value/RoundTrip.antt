-- ===== src/Modbus/Value/RoundTrip.antt =====
-- `encodeValue` and `decodeValue` are inverse to one another on the integers of each type.
use bbcom.Base.{ℕ, ◌^◌, ◌≤◌, ◌<◌, ◌≡◌, refl, ap, ◌∙◌, false, List, [], ◌∷◌, ok, arith, length}
use bbcom.Base.Number.{finite, ℤ, pos, negsuc}
use bbcom.Modbus.Core.{
  ValueType, bool, uint8, int8, uint16, int16, uint32_be, int32_be, float32_be, uint32_le, int32_le,
  float32_le, register_span,
}
use bbcom.Modbus.Value.{
  Doubles, decode_integer, encode_integer, decode_value, encode_finite, encode_value,
}

-- The integers of a type. The binary32 types have none here.
abbrev pub InRange : ValueType → ℤ → Type 0
InRange bool (pos n) = n ≤ 1
InRange uint8 (pos n) = n ≤ 0xff
InRange int8 (pos n) = n ≤ 0x7f
InRange int8 (negsuc n) = n ≤ 0x7f
InRange uint16 (pos n) = n ≤ 0xffff
InRange int16 (pos n) = n ≤ 0x7fff
InRange int16 (negsuc n) = n ≤ 0x7fff
InRange uint32_be (pos n) = n ≤ 0xffff_ffff
InRange uint32_le (pos n) = n ≤ 0xffff_ffff
InRange int32_be (pos n) = n ≤ 0x7fff_ffff
InRange int32_be (negsuc n) = n ≤ 0x7fff_ffff
InRange int32_le (pos n) = n ≤ 0x7fff_ffff
InRange int32_le (negsuc n) = n ≤ 0x7fff_ffff
InRange _ _ = ⊥

-- An integer of a type's range survives the encoding.
decode_integer-encode_integer :
    (type : ValueType) (z : ℤ)
    → InRange type z
    → decode_integer type (encode_integer type (finite z false)) ≡ z
unfolding decode_integer encode_integer
decode_integer-encode_integer bool (pos n) h = ground arith
decode_integer-encode_integer uint8 (pos n) h = ground arith
decode_integer-encode_integer int8 (pos n) h = ground arith
decode_integer-encode_integer int8 (negsuc n) h = ground arith
decode_integer-encode_integer uint16 (pos n) h = ground arith
decode_integer-encode_integer int16 (pos n) h = ground arith
decode_integer-encode_integer int16 (negsuc n) h = ground arith
decode_integer-encode_integer uint32_be (pos n) h = ground arith
decode_integer-encode_integer uint32_le (pos n) h = ground arith
decode_integer-encode_integer int32_be (pos n) h = ground arith
decode_integer-encode_integer int32_be (negsuc n) h = ground arith
decode_integer-encode_integer int32_le (pos n) h = ground arith
decode_integer-encode_integer int32_le (negsuc n) h = ground arith
decode_integer-encode_integer _ _ h = absurd h

-- A register window that holds a value of an integer type of whole words.
abbrev pub IsWindow : ValueType → List ℕ → Type 0
IsWindow uint16 (a ∷ []) = a < 0x10000
IsWindow int16 (a ∷ []) = a < 0x10000
IsWindow uint32_be (a ∷ b ∷ []) = (a < 0x10000) × (b < 0x10000)
IsWindow uint32_le (a ∷ b ∷ []) = (a < 0x10000) × (b < 0x10000)
IsWindow int32_be (a ∷ b ∷ []) = (a < 0x10000) × (b < 0x10000)
IsWindow int32_le (a ∷ b ∷ []) = (a < 0x10000) × (b < 0x10000)
IsWindow _ _ = ⊥

-- The integers that every double arithmetic represents.
abbrev Exact : ℤ → Type 0
Exact (pos n) = n ≤ 2 ^ 53
Exact (negsuc n) = n < 2 ^ 53

encode_integer-decode_integer :
    (type : ValueType) (regs : List ℕ)
    → IsWindow type regs
    → encode_integer type (finite (decode_integer type regs) false) ≡ regs
unfolding decode_integer encode_integer
encode_integer-decode_integer uint16 (a ∷ []) h = ground arith
encode_integer-decode_integer int16 (a ∷ []) h = ground arith
encode_integer-decode_integer uint32_be (a ∷ b ∷ []) h = ground arith
encode_integer-decode_integer uint32_le (a ∷ b ∷ []) h = ground arith
encode_integer-decode_integer int32_be (a ∷ b ∷ []) h = ground arith
encode_integer-decode_integer int32_le (a ∷ b ∷ []) h = ground arith
encode_integer-decode_integer _ _ h = absurd h

decode_integer-Exact :
    (type : ValueType) (regs : List ℕ) → IsWindow type regs → Exact (decode_integer type regs)
unfolding decode_integer
decode_integer-Exact uint16 (a ∷ []) h = ground arith
decode_integer-Exact int16 (a ∷ []) h = ground arith
decode_integer-Exact uint32_be (a ∷ b ∷ []) h = ground arith
decode_integer-Exact uint32_le (a ∷ b ∷ []) h = ground arith
decode_integer-Exact int32_be (a ∷ b ∷ []) h = ground arith
decode_integer-Exact int32_le (a ∷ b ∷ []) h = ground arith
decode_integer-Exact _ _ h = absurd h

length-encode_integer :
    (type : ValueType) (z : ℤ)
    → InRange type z
    → length (encode_integer type (finite z false)) ≡ register_span type
unfolding encode_integer register_span
length-encode_integer bool z h = refl
length-encode_integer uint8 z h = refl
length-encode_integer int8 z h = refl
length-encode_integer uint16 z h = refl
length-encode_integer int16 z h = refl
length-encode_integer uint32_be z h = refl
length-encode_integer uint32_le z h = refl
length-encode_integer int32_be z h = refl
length-encode_integer int32_le z h = refl
length-encode_integer _ z h = absurd h

module _ (doubles : Doubles) where
  open doubles use {Double, number, of_ℤ, number-pos, number-negsuc}

  -- The types that are not binary32 go by integers.
  decode_value-integer :
      (type : ValueType) (z : ℤ) (regs : List ℕ)
      → InRange type z
      → decode_value doubles type regs ≡ of_ℤ (decode_integer type regs)
  unfolding decode_value
  decode_value-integer float32_be z regs h = absurd h
  decode_value-integer float32_le z regs h = absurd h
  decode_value-integer _ z regs h = refl

  encode_finite-integer :
      (type : ValueType) (z : ℤ) (value : Double)
      → InRange type z
      → encode_finite doubles type value ≡ encode_integer type (number value)
  unfolding encode_finite
  encode_finite-integer float32_be z value h = absurd h
  encode_finite-integer float32_le z value h = absurd h
  encode_finite-integer _ z value h = refl

  number-of_ℤ : (z : ℤ) → Exact z → number (of_ℤ z) ≡ finite z false
  number-of_ℤ (pos n) h = number-pos n h
  number-of_ℤ (negsuc n) h = number-negsuc n h

  -- An integer of a type's range is encoded without an error into as many words as the type takes,
  -- and decoding these gives the integer back.
  pub decode_value-encode_value :
      (type : ValueType) (value : Double) (z : ℤ)
      → number value ≡ finite z false
      → InRange type z
      → (regs : List ℕ) × (encode_value doubles type value ≡ ok regs)
        × (length regs ≡ register_span type)
        × (decode_value doubles type regs ≡ of_ℤ z)
  unfolding encode_value
  decode_value-encode_value type value z e h = (
    encode_integer type (finite z false),
    rw (encode_finite-integer type z value h, e),
    length-encode_integer type z h,
    decode_value-integer type z _ h ∙ ap of_ℤ (decode_integer-encode_integer type z h),
  )

  window-value :
      (type : ValueType) (regs : List ℕ)
      → IsWindow type regs
      → (decode_value doubles type regs ≡ of_ℤ (decode_integer type regs))
        × ((d : Double) → encode_finite doubles type d ≡ encode_integer type (number d))
  unfolding decode_value encode_finite
  window-value float32_be regs h = absurd h
  window-value float32_le regs h = absurd h
  window-value _ regs h = (refl, λ d. refl)

  -- A window of 16-bit words of a 16-bit or 32-bit integer type, of either word order, is what
  -- encoding its decoded value gives.
  pub encode_value-decode_value :
      (type : ValueType) (regs : List ℕ)
      → IsWindow type regs
      → encode_value doubles type (decode_value doubles type regs) ≡ ok regs
  unfolding encode_value
  encode_value-decode_value type regs h =
      let exact = number-of_ℤ (decode_integer type regs) (decode_integer-Exact type regs h) in
      let (decoded, encoded) = window-value type regs h in
      rw (encoded, decoded, exact) (ap ok (encode_integer-decode_integer type regs h))
