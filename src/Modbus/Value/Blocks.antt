-- ===== src/Modbus/Value/Blocks.antt =====
-- `encodeValues` and `decodeValues` of src/lib/modbus/modbus-core.ts: several values in a block of registers.
use bbcom.Base.{
  ℕ, zero, suc, ◌+◌, ◌*◌, ◌/◌, ◌%◌, ◌^◌, ◌≤◌, ◌<◌, ◌≡◌, refl, ap, ap₂, sym, subst, ◌∙◌, true, false,
  List, [], ◌∷◌, ◌++◌, map, ok, ◌>>=◌, arith, leb, if◌then◌else◌, length, take, drop, length-append,
  take-append_self, drop-append_self, Bool-cases, inl, inr,
}
use bbcom.Base.Number.{Number, finite, ℤ, pos, negsuc, of_ℕ}
use bbcom.Modbus.Core.{
  ValueType, bool, uint8, int8, Fallible, is_byte_value_type, register_span,
  register_count_for_values,
}
use bbcom.Modbus.Value.{
  Doubles, bits_below, clamp_integer, clamp, trunc, signed, to_int8, decode_value, encode_value,
}
use bbcom.Modbus.Value.RoundTrip.{InRange, decode_value-encode_value}

-- One byte of `encodeValues`: `hi` or `lo`.
unfoldable pub encode_byte : ValueType → Number → ℕ
encode_byte int8 value = bits_below 0x100 (clamp_integer value 0x80 0x7f)
encode_byte _ value = bits_below (2 ^ 24) (clamp_integer value 0 0xff)

-- A missing last value counts as 0.
unfoldable pub encode_bytes : ValueType → List Number → List ℕ
unfolding encode_byte
encode_bytes type [] = []
encode_bytes type (a ∷ []) = (encode_byte type a * 256 + encode_byte type (of_ℕ 0)) ∷ []
encode_bytes type (a ∷ b ∷ values) =
    (encode_byte type a * 256 + encode_byte type b) ∷ encode_bytes type values

unfoldable pub decode_byte : ValueType → ℕ → ℤ
decode_byte int8 byte = to_int8 byte
decode_byte _ byte = pos byte

unfoldable pub decode_bytes : ValueType → List ℕ → List ℤ
unfolding decode_byte
decode_bytes type [] = []
decode_bytes type (reg ∷ regs) =
    decode_byte type (reg / 256 % 256) ∷ decode_byte type (reg % 256) ∷ decode_bytes type regs

module _ (doubles : Doubles) where
  open doubles use {Double, number, of_ℤ}

  unfoldable pub encode_each : ValueType → List Double → Fallible (List ℕ)
  encode_each type [] = ok []
  encode_each type (value ∷ values) = encode_value doubles type value >>= λ words.
      encode_each type values >>= λ rest. ok (words ++ rest)

  unfoldable pub encode_values : ValueType → List Double → Fallible (List ℕ)
  unfolding encode_bytes encode_each
  encode_values type values =
      if is_byte_value_type type
      then ok (encode_bytes type (map number values))
      else encode_each type values

  -- The loop over the windows; every round leaves fewer registers.
  unfoldable pub decode_windows : ℕ → ValueType → List ℕ → List Double
  unfolding register_span
  decode_windows zero type regs = []
  decode_windows (suc rounds) type regs =
      let rest = decode_windows rounds type (drop (register_span type) regs) in
      if leb (register_span type) (length regs)
      then decode_value doubles type (take (register_span type) regs) ∷ rest
      else []

  unfoldable pub decode_values : ValueType → List ℕ → List Double
  unfolding decode_bytes decode_windows
  decode_values type regs =
      if is_byte_value_type type
      then map of_ℤ (decode_bytes type regs)
      else decode_windows (length regs) type regs

-- An even number of values: a zero is added to an odd one.
abbrev pub even_out : List ℤ → List ℤ
even_out [] = []
even_out (z ∷ []) = z ∷ pos 0 ∷ []
even_out (y ∷ z ∷ zs) = y ∷ z ∷ even_out zs

abbrev pub padded : ValueType → List ℤ → List ℤ
padded type zs = if is_byte_value_type type then even_out zs else zs

abbrev pub AllInRange : ValueType → List ℤ → Type 0
AllInRange type [] = Unit {0}
AllInRange type (z ∷ zs) = InRange type z × AllInRange type zs

exact : ℤ → Number
exact z = finite z false

encode_byte-InRange :
    (type : ValueType) (z : ℤ)
    → is_byte_value_type type ≡ true
    → InRange type z
    → (encode_byte type (exact z) < 256) × (decode_byte type (encode_byte type (exact z)) ≡ z)
unfolding encode_byte decode_byte exact clamp_integer clamp trunc bits_below to_int8 signed
encode_byte-InRange uint8 (pos n) e h = ground arith
encode_byte-InRange int8 (pos n) e h = ground arith
encode_byte-InRange int8 (negsuc n) e h = ground arith
encode_byte-InRange uint8 (negsuc n) e h = absurd h
encode_byte-InRange _ _ e h = cc

even_step : (n : ℕ) → (suc (suc n) + 1) / 2 ≡ suc ((n + 1) / 2)
even_step n = omega arith

InRange-zero : (type : ValueType) → is_byte_value_type type ≡ true → InRange type (pos 0)
InRange-zero uint8 e = omega arith
InRange-zero int8 e = omega arith
InRange-zero _ e = cc

-- Two bytes in a register are read one by one.
two_bytes :
    (type : ValueType) (y z : ℤ) (reg : ℕ)
    → is_byte_value_type type ≡ true
    → InRange type y
    → InRange type z
    → reg ≡ encode_byte type (exact y) * 256 + encode_byte type (exact z)
    → (decode_byte type (reg / 256 % 256) ≡ y) × (decode_byte type (reg % 256) ≡ z)
two_bytes type y z reg e hy hz r =
    let (by, dy) = encode_byte-InRange type y e hy in
    let (bz, dz) = encode_byte-InRange type z e hz in
    (ap (decode_byte type) (omega arith) ∙ dy, ap (decode_byte type) (omega arith) ∙ dz)

encode_bytes-decode_bytes :
    (type : ValueType) (zs : List ℤ)
    → is_byte_value_type type ≡ true
    → AllInRange type zs
    → (decode_bytes type (encode_bytes type (map exact zs)) ≡ even_out zs)
      × (length (encode_bytes type (map exact zs)) ≡ (length zs + 1) / 2)
unfolding encode_bytes decode_bytes exact
encode_bytes-decode_bytes type [] e h = (refl, omega arith)
encode_bytes-decode_bytes type (z ∷ []) e (h, hs) =
    let (dy, dz) = two_bytes type z (pos 0) _ e h (InRange-zero type e) refl in
    (ap₂ (λ a b. a ∷ b ∷ []) dy dz, omega arith)
encode_bytes-decode_bytes type (y ∷ z ∷ zs) e (hy, (hz, hs)) =
    let (dy, dz) = two_bytes type y z _ e hy hz refl in
    let (rest, len) = encode_bytes-decode_bytes type zs e hs in
    (ap₂ ◌∷◌ dy (ap₂ ◌∷◌ dz rest), omega (arith, len))

pub register_count-word :
    (type : ValueType) (n : ℕ)
    → is_byte_value_type type ≡ false
    → 1 ≤ n
    → register_count_for_values type n ≡ n * register_span type
unfolding register_count_for_values register_span
register_count-word bool n e h = omega arith
register_count-word uint8 n e h = cc
register_count-word int8 n e h = cc
register_count-word _ n e h = omega arith

pub register_count-byte :
    (type : ValueType) (n : ℕ)
    → is_byte_value_type type ≡ true
    → 1 ≤ n
    → register_count_for_values type n ≡ (n + 1) / 2
unfolding register_count_for_values
register_count-byte uint8 n e h = omega arith
register_count-byte int8 n e h = omega arith
register_count-byte _ n e h = cc

-- The words in front of a block.
window_first :
    (k : ℕ) (words rest : List ℕ)
    → length words ≡ k
    → (take k (words ++ rest) ≡ words)
      × (drop k (words ++ rest) ≡ rest)
      × (leb k (length (words ++ rest)) ≡ true)
window_first k words rest e = (
  subst (λ n. take n (words ++ rest) ≡ words) e (take-append_self words rest),
  subst (λ n. drop n (words ++ rest) ≡ rest) e (drop-append_self words rest),
  ground (arith, length-append words rest),
)

module _ (doubles : Doubles) where
  open doubles use {Double, number, of_ℤ}

  -- Values that are the integers `zs`.
  abbrev pub Represents : List Double → List ℤ → Type 0
  Represents [] [] = Unit {0}
  Represents (value ∷ values) (z ∷ zs) = (number value ≡ finite z false) × Represents values zs
  Represents _ _ = ⊥

  map-number :
      (values : List Double) (zs : List ℤ) → Represents values zs → map number values ≡ map exact zs
  unfolding exact
  map-number [] [] h = refl
  map-number (value ∷ values) (z ∷ zs) (h, hs) = ap₂ ◌∷◌ h (map-number values zs hs)
  map-number [] (z ∷ zs) h = absurd h
  map-number (value ∷ values) [] h = absurd h

  decode_windows-cons :
      (rounds : ℕ) (type : ValueType) (words rest : List ℕ)
      → length words ≡ register_span type
      → decode_windows doubles (suc rounds) type (words ++ rest)
        ≡ decode_value doubles type words ∷ decode_windows doubles rounds type rest
  unfolding decode_windows
  decode_windows-cons rounds type words rest e =
      let (first, behind, fits) = window_first (register_span type) words rest e in
      rw (fits, first, behind)

  register_span-positive : (type : ValueType) → 1 ≤ register_span type
  unfolding register_span
  register_span-positive bool = omega arith
  register_span-positive _ = omega arith

  decode_windows-nil : (rounds : ℕ) (type : ValueType) → decode_windows doubles rounds type [] ≡ []
  unfolding decode_windows
  decode_windows-nil zero type = refl
  decode_windows-nil (suc rounds) type = ground (arith, register_span-positive type)

  -- A round reads the words of a value and hands the others on.
  decode_windows-first :
      (rounds : ℕ) (type : ValueType) (words rest : List ℕ) (value : Double) (values : List Double)
      → length words ≡ register_span type
      → length (words ++ rest) ≤ rounds
      → decode_value doubles type words ≡ value
      → ((n : ℕ) → length rest ≤ n → decode_windows doubles n type rest ≡ values)
      → decode_windows doubles rounds type (words ++ rest) ≡ value ∷ values
  decode_windows-first zero type words rest value values e n d f =
      absurd (omega (arith, length-append words rest, register_span-positive type))
  decode_windows-first (suc rounds) type words rest value values e n d f =
      decode_windows-cons rounds type words rest e
      ∙ ap₂ ◌∷◌ d (f rounds (omega (arith, length-append words rest, register_span-positive type)))

  encode_each-decode_windows :
      (type : ValueType) (values : List Double) (zs : List ℤ)
      → Represents values zs
      → AllInRange type zs
      → (regs : List ℕ) × (encode_each doubles type values ≡ ok regs)
        × (length regs ≡ length zs * register_span type)
        × ((rounds : ℕ)
            → length regs ≤ rounds
            → decode_windows doubles rounds type regs ≡ map of_ℤ zs)
  unfolding encode_each
  encode_each-decode_windows type [] [] r h =
      ([], refl, omega arith, λ n h. decode_windows-nil n type)
  encode_each-decode_windows type (value ∷ values) (z ∷ zs) (r, rs) (h, hs) =
      let (words, encoded, len, decoded) = decode_value-encode_value doubles type value z r h in
      let (rest, encoded', len', decoded') = encode_each-decode_windows type values zs rs hs in
      (
        words ++ rest,
        rw (encoded, encoded'),
        omega (arith, len, len', length-append words rest),
        λ rounds n. decode_windows-first rounds type words rest _ _ len n decoded decoded',
      )
  encode_each-decode_windows type [] (z ∷ zs) r h = absurd r
  encode_each-decode_windows type (value ∷ values) [] r h = absurd r

  -- Integers of the range of a type, at least one of them, are encoded as a block without an error,
  -- into as many registers as are computed for them; decoding the block gives them back, with a zero
  -- more if they are an odd number of bytes.
  pub decode_values-encode_values :
      (type : ValueType) (values : List Double) (zs : List ℤ)
      → Represents values zs
      → AllInRange type zs
      → 1 ≤ length zs
      → (regs : List ℕ) × (encode_values doubles type values ≡ ok regs)
        × (length regs ≡ register_count_for_values type (length zs))
        × (decode_values doubles type regs ≡ map of_ℤ (padded type zs))
  unfolding encode_values decode_values
  decode_values-encode_values type values zs r h n = elim (Bool-cases (is_byte_value_type type)) [
    | inl e ↦
        let (bytes, len) = encode_bytes-decode_bytes type zs e h in
        let same = map-number values zs r in
        (
          encode_bytes type (map exact zs),
          rw (e, same),
          len ∙ sym (register_count-byte type (length zs) e n),
          rw (e, bytes),
        )
    | inr e ↦
        let (regs, encoded, len, decoded) = encode_each-decode_windows type values zs r h in
        (
          regs,
          rw e encoded,
          len ∙ sym (register_count-word type (length zs) e n),
          rw e (decoded (length regs) (omega arith)),
        )
  ]
