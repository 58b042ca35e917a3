-- ===== src/Modbus/Writes/Encode.antt =====
-- The encoders of write requests of src/lib/modbus/modbus-batches.ts.
use bbcom.Base.{
  ℕ, ◌+◌, ◌≡◌, refl, sym, subst, ◌∙◌, Bool, true, false, not, List, [], ◌∷◌, ◌++◌, map, ok, arith,
  ◌==◌, if◌then◌else◌, length, length-append,
}
use bbcom.Base.Sort.{Each}
use bbcom.Modbus.Core.{register_count_for_values}
use bbcom.Modbus.Batches.{ModbusRegister}
use bbcom.Modbus.Value.{Doubles, is_zero}
use bbcom.Modbus.Writes.{
  WriteKind, coil, register, ModbusWriteBatch, kind_of, same_kind, modbus_write_row_values,
  build_modbus_write_batches, encode_rows, coils_of, encode_modbus_register_write_values,
  encode_modbus_coil_write_values,
}
use bbcom.Modbus.Writes.Spans.{span_of, is_writable-encoded, length-map}
use bbcom.Modbus.Writes.Group.{InRow, total_span, IsWriteRequest}
use bbcom.Modbus.Writes.Cover.{build_modbus_write_batches-covers}

module _ (doubles : Doubles) where
  open doubles use {Double, number}

  kind_span :
      (reg : ModbusRegister Double) (k : WriteKind)
      → kind_of reg.function_code ≡ k
      → span_of doubles reg ≡ (
          if same_kind k coil
          then length (modbus_write_row_values doubles reg)
          else register_count_for_values reg.type (length (modbus_write_row_values doubles reg)))
  unfolding span_of
  kind_span reg k e =
      subst
        (λ j. span_of doubles reg ≡ (
          if same_kind j coil
          then length (modbus_write_row_values doubles reg)
          else register_count_for_values reg.type (length (modbus_write_row_values doubles reg))))
        e (by_code (reg.function_code == 0x05) _ _)
    where
      by_code :
          (b : Bool) (m n : ℕ)
          → ◌≡◌ {A = ℕ}
              (if b then m else n)
              (if same_kind (if b then coil else register) coil then m else n)
      by_code true m n = refl
      by_code false m n = refl

  encode_rows-length :
      (slave address : ℕ) (regs : List (ModbusRegister Double))
      → InRow doubles slave register address regs
      → (words : List ℕ) × (encode_rows doubles regs ≡ ok words)
        × (length words ≡ total_span doubles regs)
  unfolding encode_rows
  encode_rows-length slave address [] h = ([], refl, omega arith)
  encode_rows-length slave address (reg ∷ regs) ((w, s, k, a), h) =
      let (words, encoded, len) = is_writable-encoded doubles reg w in
      let (rest, encoded', len') =
        encode_rows-length slave (address + span_of doubles reg) regs h in
      (
        words ++ rest,
        rw (encoded, encoded'),
        omega (arith, length-append words rest, len, len', kind_span reg register k),
      )

  coils_of-length :
      (slave address : ℕ) (regs : List (ModbusRegister Double))
      → InRow doubles slave coil address regs
      → length (coils_of doubles regs) ≡ total_span doubles regs
  unfolding coils_of
  coils_of-length slave address [] h = omega arith
  coils_of-length slave address (reg ∷ regs) ((w, s, k, a), h) =
      let values = modbus_write_row_values doubles reg in
      let coils = map (λ v. not (is_zero (number v))) values in
      omega (
        arith,
        length-append coils (coils_of doubles regs),
        length-map (λ v. not (is_zero (number v))) values,
        kind_span reg coil k,
        coils_of-length slave (address + span_of doubles reg) regs h,
      )

  -- A request has as many words or coils as it counts, those of its kind.
  pub Encodes : ModbusWriteBatch Double → Type 0
  Encodes batch =
      (words : List ℕ) × (encode_modbus_register_write_values doubles batch ≡ ok words)
      × (length words ≡ (if same_kind batch.kind register then batch.count else 0))
      × (length (encode_modbus_coil_write_values doubles batch)
          ≡ (if same_kind batch.kind coil then batch.count else 0))

  IsWriteRequest-Encodes :
      (batch : ModbusWriteBatch Double) → IsWriteRequest doubles batch → Encodes batch
  unfolding Encodes encode_modbus_register_write_values encode_modbus_coil_write_values
  IsWriteRequest-Encodes batch h = by_kind batch.kind h.in_row
    where
      by_kind :
          (k : WriteKind)
          → InRow doubles batch.slave k batch.start batch.rows
          → (words : List ℕ) × ((if same_kind k register
                then encode_rows doubles batch.rows
                else ok [])
              ≡ ok words)
            × (length words ≡ (if same_kind k register then batch.count else 0))
            × (length (if same_kind k coil then coils_of doubles batch.rows else [])
                ≡ (if same_kind k coil then batch.count else 0))
      by_kind coil r = (
        [],
        refl,
        omega arith,
        coils_of-length batch.slave batch.start batch.rows r ∙ sym h.counted,
      )
      by_kind register r =
          let (words, e, len) = encode_rows-length batch.slave batch.start batch.rows r in
          (words, e, len ∙ sym h.counted, omega arith)

  all-Encodes :
      (batches : List (ModbusWriteBatch Double))
      → Each (IsWriteRequest doubles) batches
      → Each Encodes batches
  all-Encodes [] hs = tt
  all-Encodes (batch ∷ batches) (h, hs) = (IsWriteRequest-Encodes batch h, all-Encodes batches hs)

  -- Every request that `buildModbusWriteBatches` makes of any rows is encoded without an error: one of
  -- registers into as many words as it counts and no coils, one of coils into as many coils as it
  -- counts and no words.
  pub build_modbus_write_batches-Encodes :
      (regs : List (ModbusRegister Double))
      → (out : List (ModbusWriteBatch Double)) × (build_modbus_write_batches doubles regs ≡ ok out)
        × Each Encodes out
  build_modbus_write_batches-Encodes regs =
      let (out, e, requests, _, _) = build_modbus_write_batches-covers doubles regs in
      (out, e, all-Encodes out requests)
