-- ===== src/Modbus/Batches.antt =====
-- src/lib/modbus/modbus-batches.ts: the rows of the register table, grouped into read requests.
pub mod Rows
pub mod Merge
pub mod Split
mod Cover
mod Tests
use bbcom.Base.{
  ℕ, zero, suc, ◌+◌, ◌-◌, Bool, true, false, ◌&&◌, Option, List, [], ◌∷◌, ◌++◌, ltb, leb, ◌==◌,
  if◌then◌else◌, length, drop, min, max,
}
use bbcom.Base.Number.{Unknown, number, other, finite, to_ℕ}
use bbcom.Base.Sort.{keep, sort}
use bbcom.Base.Text.{Text}
use bbcom.Modbus.Core.{
  ValueType, is_bit_fc, is_read_fc, read_bits_limit, read_registers_limit, write_registers_limit,
  max_value_count_for_registers, register_count_for_values,
}

-- A row of the table, as far as batches look at it. Addresses and function codes are natural numbers,
-- as the table clamps them; `D` is the type of the doubles.
pub record ModbusRegister (D : Type 0) : Type 0 where
  pub id : Text
  pub slave_address : ℕ
  pub function_code : ℕ
  pub address : ℕ
  pub quantity : Unknown
  pub type : ValueType
  pub value : Option D
  pub values : Option (List D)

-- `clampInt` with natural bounds.
unfoldable pub clamp_int : Unknown → ℕ → ℕ → ℕ
clamp_int (number (finite n f)) low high = max low (min high (to_ℕ n))
clamp_int _ low high = max low (min high low)

unfoldable pub max_data_values : ℕ → ValueType → ℕ
max_data_values fc type =
    if is_bit_fc fc
    then read_bits_limit
    else (if fc == 0x10
        then max_value_count_for_registers type write_registers_limit
        else (if is_read_fc fc then max_value_count_for_registers type read_registers_limit else 1))

unfoldable pub read_limit : ℕ → ℕ
read_limit fc = if is_bit_fc fc then read_bits_limit else read_registers_limit

module _ {D : Type 0} where
  unfoldable pub modbus_data_value_count : ModbusRegister D → ℕ
  unfolding clamp_int max_data_values
  modbus_data_value_count reg =
      clamp_int reg.quantity 1 (max_data_values reg.function_code reg.type)

  unfoldable pub modbus_read_row_count : ModbusRegister D → ℕ
  unfolding modbus_data_value_count read_limit
  modbus_read_row_count reg =
      if is_bit_fc reg.function_code
      then modbus_data_value_count reg
      else min (read_limit reg.function_code)
          (register_count_for_values reg.type (modbus_data_value_count reg))

  -- The comparison of `sort` is positive.
  unfoldable pub comes_after : ModbusRegister D → ModbusRegister D → Bool
  comes_after a b =
      if a.slave_address == b.slave_address
      then (if a.function_code == b.function_code
          then ltb b.address a.address
          else ltb b.function_code a.function_code)
      else ltb b.slave_address a.slave_address

pub record ReadRow (D : Type 0) : Type 0 where
  pub reg : ModbusRegister D
  pub offset : ℕ

pub record ModbusReadBatch (D : Type 0) : Type 0 where
  pub slave : ℕ
  pub fc : ℕ
  pub start : ℕ
  pub count : ℕ
  pub rows : List (ReadRow D)

module _ {D : Type 0} where
  unfoldable pub continues : ModbusReadBatch D → ModbusRegister D → Bool
  continues last reg =
      last.slave == reg.slave_address
      && last.fc == reg.function_code
      && last.start + last.count == reg.address

  unfoldable pub extend_batch : ModbusReadBatch D → ModbusRegister D → ModbusReadBatch D
  extend_batch last reg = record last {
    count = last.count + modbus_read_row_count reg;
    rows = last.rows ++ record { reg = reg; offset = reg.address - last.start } ∷ [];
  }

  unfoldable pub new_batch : ModbusRegister D → ModbusReadBatch D
  new_batch reg = record {
    slave = reg.slave_address;
    fc = reg.function_code;
    start = reg.address;
    count = modbus_read_row_count reg;
    rows = record { reg = reg; offset = 0 } ∷ [];
  }

  -- The body of the first loop.
  unfoldable pub add_row : List (ModbusReadBatch D) → ModbusRegister D → List (ModbusReadBatch D)
  unfolding continues extend_batch new_batch
  add_row [] reg = new_batch reg ∷ []
  add_row (last ∷ []) reg =
      if continues last reg then extend_batch last reg ∷ [] else last ∷ new_batch reg ∷ []
  add_row (batch ∷ next ∷ batches) reg = batch ∷ add_row (next ∷ batches) reg

  unfoldable pub add_rows :
      List (ModbusReadBatch D) → List (ModbusRegister D) → List (ModbusReadBatch D)
  unfolding add_row
  add_rows batches [] = batches
  add_rows batches (reg ∷ regs) = add_rows (add_row batches reg) regs

  -- The inner loop of `splitReadBatch` with `moved = cursor - batch.start`: the rows of the next
  -- request and their number of items.
  unfoldable pub take_rows : ℕ → ℕ → ℕ → List (ReadRow D) → List (ReadRow D) × ℕ
  take_rows limit moved used [] = ([], used)
  take_rows limit moved used (row ∷ rows) =
      let span = modbus_read_row_count row.reg in
      let (rest, total) = take_rows limit moved (used + span) rows in
      if ltb limit (used + span)
      then ([], used)
      else (record { reg = row.reg; offset = row.offset - moved } ∷ rest, total)

  -- The outer loop, with `remaining` and `cursor`; every round takes a row, so fuel for the number of
  -- rows is enough.
  unfoldable pub split_rounds :
      ℕ → ModbusReadBatch D → List (ReadRow D) → ℕ → List (ModbusReadBatch D)
  unfolding take_rows
  split_rounds rounds batch [] cursor = []
  split_rounds zero batch (row ∷ rows) cursor = []
  split_rounds (suc rounds) batch (row ∷ rows) cursor =
      let (slice, used) = take_rows (read_limit batch.fc) (cursor - batch.start) 0 (row ∷ rows) in
      record { slave = batch.slave; fc = batch.fc; start = cursor; count = used; rows = slice }
      ∷ split_rounds rounds batch (drop (length slice) (row ∷ rows)) (cursor + used)

  unfoldable pub split_read_batch : ModbusReadBatch D → List (ModbusReadBatch D)
  unfolding split_rounds
  split_read_batch batch =
      if leb batch.count (read_limit batch.fc)
      then batch ∷ []
      else split_rounds (length batch.rows) batch batch.rows batch.start

  -- `flatMap(splitReadBatch)`
  unfoldable pub split_all : List (ModbusReadBatch D) → List (ModbusReadBatch D)
  unfolding split_read_batch
  split_all [] = []
  split_all (batch ∷ batches) = split_read_batch batch ++ split_all batches

  unfoldable pub build_modbus_read_batches : List (ModbusRegister D) → List (ModbusReadBatch D)
  unfolding add_rows split_all
  build_modbus_read_batches regs =
      split_all (add_rows [] (sort comes_after (keep (λ reg. is_read_fc reg.function_code) regs)))
