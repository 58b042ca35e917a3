-- ===== src/Modbus/Writes/Spans.antt =====
-- src/lib/modbus/modbus-batches.ts: the values of rows that are written, and their spans.
use bbcom.Base.{
  ℕ, zero, suc, ◌+◌, ◌*◌, ◌/◌, ◌≤◌, ◌≡◌, ◌⊎◌, inl, inr, refl, sym, subst, ◌∙◌, Bool, true, false,
  not, ◌&&◌, ◌||◌, Option, none, some, List, [], ◌∷◌, ◌++◌, map, ok, arith, ltb, leb, ◌==◌,
  if◌then◌else◌, length, take, length-append, length-take, Bool-cases,
}
use bbcom.Base.Number.{
  Number, Unknown, number, other, is_finite, finite, nan, infinity, minus_infinity,
}
use bbcom.Base.Sort.{keep, keep-Each, Each, if-both}
use bbcom.Modbus.Core.{
  ValueType, bool, uint8, Fallible, register_span, is_byte_value_type, register_count_for_values,
  max_value_count_for_registers,
}
use bbcom.Modbus.Batches.{ModbusRegister, modbus_data_value_count, clamp_int, max_data_values}
use bbcom.Modbus.Batches.Rows.{clamp_int-bounds}
use bbcom.Modbus.Value.{Doubles, encode_value, encode_finite, encode_integer}
use bbcom.Modbus.Value.Blocks.{
  encode_values, encode_each, encode_bytes, register_count-word, register_count-byte,
}
use bbcom.Modbus.Writes.{
  single_value, row_values, write_row_values, modbus_write_row_values, write_row_span, has_values,
}

pub length-map : {A B : Type 0} (f : A → B) (xs : List A) → length (map f xs) ≡ length xs
length-map f [] = refl
length-map f (x ∷ xs) = omega (arith, length-map f xs)

length-encode_bytes :
    (type : ValueType) (values : List Number)
    → length (encode_bytes type values) ≡ (length values + 1) / 2
unfolding encode_bytes
length-encode_bytes type [] = omega arith
length-encode_bytes type (a ∷ []) = omega arith
length-encode_bytes type (a ∷ b ∷ values) = omega (arith, length-encode_bytes type values)

module _ (doubles : Doubles) where
  open doubles use {Double, number}

  abbrev pub AllFinite : List Double → Type 0
  AllFinite values = Each (λ v. is_finite (number v) ≡ true) values

  length-encode_finite :
      (type : ValueType) (v : Double) → length (encode_finite doubles type v) ≡ register_span type
  unfolding encode_finite register_span encode_integer
  length-encode_finite bool v = refl
  length-encode_finite uint8 v = refl
  length-encode_finite _ v = refl

  encode_each-finite :
      (type : ValueType) (values : List Double)
      → AllFinite values
      → (words : List ℕ) × (encode_each doubles type values ≡ ok words)
        × (length words ≡ length values * register_span type)
  unfolding encode_each encode_value
  encode_each-finite type [] hs = ([], refl, omega arith)
  encode_each-finite type (v ∷ values) (h, hs) =
      let (words, e, len) = encode_each-finite type values hs in
      (
        encode_finite doubles type v ++ words,
        rw (h, e),
        omega (
          arith,
          len,
          length-append (encode_finite doubles type v) words,
          length-encode_finite type v,
        ),
      )

  -- Finite values, at least one of them, are encoded without an error into as many registers as are
  -- computed for them.
  pub encode_values-finite :
      (type : ValueType) (values : List Double)
      → AllFinite values
      → 1 ≤ length values
      → (words : List ℕ) × (encode_values doubles type values ≡ ok words)
        × (length words ≡ register_count_for_values type (length values))
  unfolding encode_values
  encode_values-finite type values hs n = elim (Bool-cases (is_byte_value_type type)) [
    | inl e ↦ (
      encode_bytes type (map number values),
      rw e,
      length-encode_bytes type (map number values)
          ∙ omega (arith, length-map number values, register_count-byte type (length values) e n),
    )
    | inr e ↦
        let (words, encoded, len) = encode_each-finite type values hs in
        (words, rw e encoded, len ∙ sym (register_count-word type (length values) e n))
  ]

  take-AllFinite : (n : ℕ) (values : List Double) → AllFinite values → AllFinite (take n values)
  take-AllFinite zero values hs = tt
  take-AllFinite (suc n) [] hs = tt
  take-AllFinite (suc n) (v ∷ values) (h, hs) = (h, take-AllFinite n values hs)

  -- The values of a row are finite and not more than the row counts.
  abbrev pub AreWritten : ℕ → List Double → Type 0
  AreWritten count values = AllFinite values × (length values ≤ count)

  single_value-AreWritten :
      (fc count : ℕ) (value : Option Double)
      → 1 ≤ count
      → AreWritten count (single_value doubles fc count value)
  unfolding single_value
  single_value-AreWritten fc count none n = (tt, omega arith)
  single_value-AreWritten fc count (some v) n =
      if-both (AreWritten count) (fc == 0x10 && ltb 1 count) []
        (if is_finite (number v) then v ∷ [] else []) (λ e. (tt, omega arith))
        (λ e.
          if-both (AreWritten count) (is_finite (number v)) (v ∷ []) []
            (λ f. ((f, tt), omega arith)) (λ f. (tt, omega arith)))

  take-AreWritten :
      (count : ℕ) (values : List Double) → AllFinite values → AreWritten count (take count values)
  take-AreWritten count values hs =
      (take-AllFinite count values hs, omega (arith, length-take count values))

  row_values-AreWritten :
      (fc count : ℕ) (values : List Double) (value : Option Double)
      → AllFinite values
      → 1 ≤ count
      → AreWritten count (row_values doubles fc count values value)
  unfolding row_values
  row_values-AreWritten fc count values value hs n =
      let cut = take-AreWritten count values hs in
      if-both (AreWritten count) (fc == 0x10)
        (if leb count (length values) then take count values else [])
        (if ltb 0 (length values) then take count values else single_value doubles fc count value)
        (λ e.
          if-both (AreWritten count) (leb count (length values)) (take count values) [] (λ f. cut)
            (λ f. (tt, omega arith)))
        (λ e.
          if-both (AreWritten count) (ltb 0 (length values)) (take count values)
            (single_value doubles fc count value) (λ f. cut)
            (λ f. single_value-AreWritten fc count value n))

  write_row_values-AreWritten :
      (fc count : ℕ) (values : Option (List Double)) (value : Option Double)
      → 1 ≤ count
      → AreWritten count (write_row_values doubles fc count values value)
  unfolding write_row_values
  write_row_values-AreWritten fc count none value n = single_value-AreWritten fc count value n
  write_row_values-AreWritten fc count (some values) value n =
      row_values-AreWritten fc count (keep (λ v. is_finite (number v)) values) value
        (keep-Each (λ v. is_finite (number v)) values) n

max_value_count-positive : (type : ValueType) → 1 ≤ max_value_count_for_registers type 123
unfolding max_value_count_for_registers register_span
max_value_count-positive bool = omega arith
max_value_count-positive _ = omega arith

-- As many values as fit one request do fit it.
register_count-fits :
    (type : ValueType) (n : ℕ)
    → n ≤ max_value_count_for_registers type 123
    → register_count_for_values type n ≤ 123
unfolding max_value_count_for_registers register_count_for_values register_span
register_count-fits bool n h = omega arith
register_count-fits _ n h = omega arith

register_count-positive : (type : ValueType) (n : ℕ) → 1 ≤ register_count_for_values type n
unfolding register_count_for_values register_span
register_count-positive bool n = omega arith
register_count-positive _ n = omega arith

clamp_int-lower : (v : Unknown) (low high : ℕ) → low ≤ clamp_int v low high
unfolding clamp_int
clamp_int-lower (number (finite n f)) low high = omega arith
clamp_int-lower (number nan) low high = omega arith
clamp_int-lower (number infinity) low high = omega arith
clamp_int-lower (number minus_infinity) low high = omega arith
clamp_int-lower other low high = omega arith

count-multiple :
    (fc : ℕ) (type : ValueType) (quantity : Unknown)
    → fc ≡ 0x10
    → clamp_int quantity 1 (max_data_values fc type) ≤ max_value_count_for_registers type 123
unfolding max_data_values
count-multiple fc type quantity e =
    subst
      (λ f. clamp_int quantity 1 (max_data_values f type) ≤ max_value_count_for_registers type 123)
      (sym e)
      ((clamp_int-bounds quantity 1 (max_value_count_for_registers type 123)
        (max_value_count-positive type)).1)

count-coils :
    (fc : ℕ) (type : ValueType) (quantity : Unknown)
    → fc ≡ 0x05
    → clamp_int quantity 1 (max_data_values fc type) ≤ 2000
unfolding max_data_values
count-coils fc type quantity e =
    subst (λ f. clamp_int quantity 1 (max_data_values f type) ≤ 2000) (sym e)
      ((clamp_int-bounds quantity 1 2000 (omega arith)).1)

-- How many items a row of a function code may write.
abbrev pub SpanFits : ℕ → ℕ → Type 0
SpanFits fc span =
    ((fc ≡ 0x05) × (span ≤ 2000)) ⊎ ((fc ≡ 0x10) × (span ≤ 123)) ⊎ ((fc ≡ 0x06) × (span ≡ 1))

module _ (doubles : Doubles) where
  open doubles use {Double, number}

  -- The number of items that a row writes.
  unfoldable pub span_of : ModbusRegister Double → ℕ
  span_of reg =
      if reg.function_code == 0x05
      then length (modbus_write_row_values doubles reg)
      else register_count_for_values reg.type (length (modbus_write_row_values doubles reg))

  -- A row that passes the filters.
  unfoldable pub is_writable : ModbusRegister Double → Bool
  is_writable reg = has_values doubles reg && (not (reg.function_code == 0x06) || span_of reg == 1)

  write_row-AreWritten :
      (reg : ModbusRegister Double)
      → AreWritten doubles (modbus_data_value_count reg) (modbus_write_row_values doubles reg)
  unfolding modbus_write_row_values modbus_data_value_count
  write_row-AreWritten reg =
      write_row_values-AreWritten doubles reg.function_code (modbus_data_value_count reg) reg.values
        reg.value (clamp_int-lower reg.quantity 1 (max_data_values reg.function_code reg.type))

  is_writable-values :
      (reg : ModbusRegister Double)
      → is_writable reg ≡ true
      → (1 ≤ length (modbus_write_row_values doubles reg))
        × ((reg.function_code ≡ 0x05)
            ⊎ (reg.function_code ≡ 0x10)
            ⊎ ((reg.function_code ≡ 0x06) × (span_of reg ≡ 1)))
  unfolding is_writable has_values
  is_writable-values reg e = ground arith

  -- The values of a row that passes are encoded without an error, and its span is computed.
  pub is_writable-encoded :
      (reg : ModbusRegister Double)
      → is_writable reg ≡ true
      → (words : List ℕ) × (encode_values doubles reg.type (modbus_write_row_values doubles reg)
          ≡ ok words)
        × (length words
            ≡ register_count_for_values reg.type (length (modbus_write_row_values doubles reg)))
  is_writable-encoded reg e =
      encode_values-finite doubles reg.type (modbus_write_row_values doubles reg)
        (write_row-AreWritten reg).0 (is_writable-values reg e).0

  pub has_values-span :
      (reg : ModbusRegister Double)
      → has_values doubles reg ≡ true
      → write_row_span doubles reg ≡ ok (span_of reg)
  unfolding write_row_span has_values span_of
  has_values-span reg e =
      let (words, encoded, len) =
        encode_values-finite doubles reg.type (modbus_write_row_values doubles reg)
          (write_row-AreWritten reg).0 (ground arith) in
      rw (encoded, len) (split (reg.function_code == 0x05) _ _)
    where
      split :
          (b : Bool) (m n : ℕ)
          → ◌≡◌ {A = Fallible ℕ} (if b then ok m else ok n) (ok (if b then m else n))
      split true m n = refl
      split false m n = refl

  pub is_writable-SpanFits :
      (reg : ModbusRegister Double)
      → is_writable reg ≡ true
      → (1 ≤ span_of reg) × SpanFits reg.function_code (span_of reg)
  unfolding span_of modbus_data_value_count
  is_writable-SpanFits reg e =
      let (finite_values, few) = write_row-AreWritten reg in
      let (some_values, codes) = is_writable-values reg e in
      let values = length (modbus_write_row_values doubles reg) in
      elim codes [
        | inl c ↦
            let span : span_of reg ≡ values = ground arith in
            (
              omega arith,
              inl (c, omega (arith, few, count-coils reg.function_code reg.type reg.quantity c)),
            )
        | inr (inl c) ↦
            let span : span_of reg ≡ register_count_for_values reg.type values = ground arith in
            (
              omega (arith, register_count-positive reg.type values),
              inr (
                  inl (
                    c,
                    omega (
                      arith,
                      register_count-fits reg.type values (
                          omega
                            (arith, few, count-multiple reg.function_code reg.type reg.quantity c)),
                    ),
                  )),
            )
        | inr (inr (c, one)) ↦ (omega arith, inr (inr (c, one)))
      ]
