-- ===== src/Modbus/Batches/Rows.antt =====
-- src/lib/modbus/modbus-batches.ts: the spans of rows, and the rows that a request holds one behind
-- the other.
use bbcom.Base.{
  ℕ, ◌+◌, ◌≤◌, ◌≡◌, refl, true, false, List, [], ◌∷◌, ◌++◌, map, append_assoc, arith, if◌then◌else◌,
  min,
}
use bbcom.Base.Number.{Unknown, number, other, finite, nan, infinity, minus_infinity}
use bbcom.Modbus.Core.{ValueType, bool, is_bit_fc, register_count_for_values, register_span}
use bbcom.Modbus.Batches.{
  ModbusRegister, ReadRow, ModbusReadBatch, clamp_int, max_data_values, read_limit,
  modbus_data_value_count, modbus_read_row_count, comes_after,
}

pub clamp_int-bounds :
    (v : Unknown) (low high : ℕ)
    → low ≤ high
    → (low ≤ clamp_int v low high) × (clamp_int v low high ≤ high)
unfolding clamp_int
clamp_int-bounds (number (finite n f)) low high h = omega arith
clamp_int-bounds (number nan) low high h = omega arith
clamp_int-bounds (number infinity) low high h = omega arith
clamp_int-bounds (number minus_infinity) low high h = omega arith
clamp_int-bounds other low high h = omega arith

register_count-positive : (type : ValueType) (count : ℕ) → 1 ≤ register_count_for_values type count
unfolding register_count_for_values register_span
register_count-positive bool count = omega arith
register_count-positive _ count = omega arith

bounded_count :
    (fc regs : ℕ) (quantity : Unknown) (type : ValueType)
    → 1 ≤ regs
    → (1 ≤ (
        if is_bit_fc fc
        then clamp_int quantity 1 (max_data_values fc type)
        else min (read_limit fc) regs))
      × ((if is_bit_fc fc
            then clamp_int quantity 1 (max_data_values fc type)
            else min (read_limit fc) regs)
          ≤ read_limit fc)
unfolding max_data_values read_limit
bounded_count fc regs quantity type h =
    ground (arith, clamp_int-bounds quantity 1 2000 (omega arith))

module _ {D : Type 0} where
  -- A row asks for at least one item and for no more than one request may.
  pub modbus_read_row_count-bounds :
      (reg : ModbusRegister D)
      → (1 ≤ modbus_read_row_count reg) × (modbus_read_row_count reg ≤ read_limit reg.function_code)
  unfolding modbus_read_row_count modbus_data_value_count max_data_values read_limit
  modbus_read_row_count-bounds reg =
      bounded_count reg.function_code _ reg.quantity reg.type
        (register_count-positive reg.type (modbus_data_value_count reg))

  -- Two rows do not each come after the other.
  pub comes_after-asymmetric :
      (a b : ModbusRegister D) → comes_after a b ≡ true → comes_after b a ≡ false
  unfolding comes_after
  comes_after-asymmetric a b e = ground arith

  -- The number of items of some rows.
  abbrev pub total_of : List (ReadRow D) → ℕ
  total_of [] = 0
  total_of (row ∷ rows) = modbus_read_row_count row.reg + total_of rows

  abbrev pub regs_of : List (ReadRow D) → List (ModbusRegister D)
  regs_of rows = map (λ row. row.reg) rows

  -- The rows of a slave and a function code stand one behind the other from `offset` on, and `offset`
  -- counts from the address `start`.
  abbrev pub Laid : ℕ → ℕ → ℕ → ℕ → List (ReadRow D) → Type 0
  Laid slave fc start offset [] = Unit {0}
  Laid slave fc start offset (row ∷ rows) =
      ((row.reg.slave_address ≡ slave)
        × (row.reg.function_code ≡ fc)
        × (row.offset ≡ offset)
        × (row.reg.address ≡ start + offset))
      × Laid slave fc start (offset + modbus_read_row_count row.reg) rows

  -- A batch holds the items of its rows without a gap, beginning at its start.
  pub record IsLaid (batch : ModbusReadBatch D) : Type 0 where
    pub laid : Laid batch.slave batch.fc batch.start 0 batch.rows
    pub counted : batch.count ≡ total_of batch.rows
    pub occupied : 1 ≤ batch.count

  abbrev pub regs_of_all : List (ModbusReadBatch D) → List (ModbusRegister D)
  regs_of_all [] = []
  regs_of_all (batch ∷ batches) = regs_of batch.rows ++ regs_of_all batches

  pub regs_of_all-append :
      (l r : List (ModbusReadBatch D)) → regs_of_all (l ++ r) ≡ regs_of_all l ++ regs_of_all r
  regs_of_all-append [] r = refl
  regs_of_all-append (b ∷ l) r =
      rw (regs_of_all-append l r, append_assoc (regs_of b.rows) (regs_of_all l) (regs_of_all r))

  pub total_of-snoc :
      (rows : List (ReadRow D)) (row : ReadRow D)
      → total_of (rows ++ row ∷ []) ≡ total_of rows + modbus_read_row_count row.reg
  total_of-snoc [] row = omega arith
  total_of-snoc (r ∷ rows) row = omega (arith, total_of-snoc rows row)

  pub Laid-snoc :
      (slave fc start offset : ℕ) (rows : List (ReadRow D)) (row : ReadRow D)
      → Laid slave fc start offset rows
      → row.reg.slave_address ≡ slave
      → row.reg.function_code ≡ fc
      → row.offset ≡ offset + total_of rows
      → row.reg.address ≡ start + (offset + total_of rows)
      → Laid slave fc start offset (rows ++ row ∷ [])
  Laid-snoc slave fc start offset [] row h s f o a = ((s, f, omega arith, omega arith), tt)
  Laid-snoc slave fc start offset (r ∷ rows) row (p, h) s f o a = (
    p,
    Laid-snoc slave fc start (offset + modbus_read_row_count r.reg) rows row h s f (omega arith)
        (omega arith),
  )
