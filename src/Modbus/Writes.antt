-- ===== src/Modbus/Writes.antt =====
-- src/lib/modbus/modbus-batches.ts: the rows of the register table, grouped into write requests.
-- Encoding a value throws if it is not finite, so what encodes values is fallible here.
pub mod Spans
pub mod Group
pub mod Cover
mod Encode
mod Tests
use bbcom.Base.{
  ℕ, ◌+◌, Bool, true, false, not, ◌&&◌, ◌||◌, Option, none, some, List, [], ◌∷◌, ◌++◌, map, ok,
  ◌>>=◌, ltb, leb, ◌==◌, if◌then◌else◌, length, take,
}
use bbcom.Base.Number.{Number, is_finite, finite, pos}
use bbcom.Base.Sort.{keep, sort}
use bbcom.Modbus.Core.{Fallible, write_bits_limit, write_registers_limit}
use bbcom.Modbus.Batches.{ModbusRegister, modbus_data_value_count}
use bbcom.Modbus.Value.{Doubles, is_zero}
use bbcom.Modbus.Value.Blocks.{encode_values}

pub data WriteKind : Type 0 where
  coil register : WriteKind

pub record ModbusWriteBatch (D : Type 0) : Type 0 where
  pub slave : ℕ
  pub kind : WriteKind
  pub fc : ℕ
  pub start : ℕ
  pub count : ℕ
  pub rows : List (ModbusRegister D)

abbrev pub kind_of : ℕ → WriteKind
kind_of fc = if fc == 0x05 then coil else register

-- `===` of kinds
abbrev pub same_kind : WriteKind → WriteKind → Bool
same_kind coil coil = true
same_kind register register = true
same_kind _ _ = false

unfoldable pub write_kind_rank : ℕ → ℕ
write_kind_rank fc = if fc == 0x05 then 0 else 1

unfoldable pub write_limit : WriteKind → ℕ
write_limit coil = write_bits_limit
write_limit register = write_registers_limit

unfoldable pub write_batch_fc : WriteKind → ℕ → ℕ → ℕ
write_batch_fc coil count requested_fc = if count == 1 then 0x05 else 0x0f
write_batch_fc register count requested_fc = if requested_fc == 0x10 then 0x10 else 0x06

unfoldable pub can_merge_write_rows : WriteKind → ℕ → ℕ → Bool
can_merge_write_rows coil last_fc fc = fc == 0x05
can_merge_write_rows register last_fc fc = last_fc == 0x10 && fc == 0x10

-- The comparison of `sort` is positive.
unfoldable pub write_comes_after : {D : Type 0} → ModbusRegister D → ModbusRegister D → Bool
unfolding write_kind_rank
write_comes_after a b =
    if a.slave_address == b.slave_address
    then (if write_kind_rank a.function_code == write_kind_rank b.function_code
        then (if a.address == b.address
            then ltb b.function_code a.function_code
            else ltb b.address a.address)
        else ltb (write_kind_rank b.function_code) (write_kind_rank a.function_code))
    else ltb b.slave_address a.slave_address

module _ (doubles : Doubles) where
  open doubles use {Double, number}

  -- The end of `modbusWriteRowValues`: the one value of the row.
  unfoldable pub single_value : ℕ → ℕ → Option Double → List Double
  single_value fc count none = []
  single_value fc count (some v) =
      if fc == 0x10 && ltb 1 count then [] else (if is_finite (number v) then v ∷ [] else [])

  -- `modbusWriteRowValues`, for the values of a row that are finite.
  unfoldable pub row_values : ℕ → ℕ → List Double → Option Double → List Double
  unfolding single_value
  row_values fc count values value =
      if fc == 0x10
      then (if leb count (length values) then take count values else [])
      else (if ltb 0 (length values) then take count values else single_value fc count value)

  unfoldable pub write_row_values : ℕ → ℕ → Option (List Double) → Option Double → List Double
  unfolding row_values
  write_row_values fc count none value = single_value fc count value
  write_row_values fc count (some values) value =
      row_values fc count (keep (λ v. is_finite (number v)) values) value

  unfoldable pub modbus_write_row_values : ModbusRegister Double → List Double
  unfolding write_row_values
  modbus_write_row_values reg =
      write_row_values reg.function_code (modbus_data_value_count reg) reg.values reg.value

  unfoldable pub write_row_span : ModbusRegister Double → Fallible ℕ
  unfolding modbus_write_row_values
  write_row_span reg =
      if reg.function_code == 0x05
      then ok (length (modbus_write_row_values reg))
      else (encode_values doubles reg.type (modbus_write_row_values reg) >>= λ words.
          ok (length words))

  -- The first two filters.
  unfoldable pub has_values : ModbusRegister Double → Bool
  unfolding modbus_write_row_values
  has_values reg =
      (reg.function_code == 0x05 || reg.function_code == 0x06 || reg.function_code == 0x10)
      && ltb 0 (length (modbus_write_row_values reg))

  -- The third filter, whose test may throw.
  unfoldable pub keep_single :
      List (ModbusRegister Double) → Fallible (List (ModbusRegister Double))
  unfolding write_row_span
  keep_single [] = ok []
  keep_single (reg ∷ regs) = write_row_span reg >>= λ span. keep_single regs >>= λ rest.
      ok (if not (reg.function_code == 0x06) || span == 1 then reg ∷ rest else rest)

  unfoldable pub takes_row : ModbusWriteBatch Double → ModbusRegister Double → ℕ → Bool
  unfolding can_merge_write_rows write_limit
  takes_row last reg span =
      last.slave == reg.slave_address
      && same_kind last.kind (kind_of reg.function_code)
      && can_merge_write_rows last.kind last.fc reg.function_code
      && last.start + last.count == reg.address
      && leb (last.count + span) (write_limit (kind_of reg.function_code))

  unfoldable pub extend_write_batch :
      ModbusWriteBatch Double → ModbusRegister Double → ℕ → ModbusWriteBatch Double
  unfolding write_batch_fc
  extend_write_batch last reg span = record last {
    rows = last.rows ++ reg ∷ [];
    count = last.count + span;
    fc = write_batch_fc (kind_of reg.function_code) (last.count + span) reg.function_code;
  }

  unfoldable pub new_write_batch : ModbusRegister Double → ℕ → ModbusWriteBatch Double
  unfolding write_batch_fc
  new_write_batch reg span = record {
    slave = reg.slave_address;
    kind = kind_of reg.function_code;
    fc = write_batch_fc (kind_of reg.function_code) span reg.function_code;
    start = reg.address;
    count = span;
    rows = reg ∷ [];
  }

  -- The body of the loop.
  unfoldable pub add_write_row :
      List (ModbusWriteBatch Double) → ModbusRegister Double → ℕ → List (ModbusWriteBatch Double)
  unfolding takes_row extend_write_batch new_write_batch
  add_write_row [] reg span = new_write_batch reg span ∷ []
  add_write_row (last ∷ []) reg span =
      if takes_row last reg span
      then extend_write_batch last reg span ∷ []
      else last ∷ new_write_batch reg span ∷ []
  add_write_row (batch ∷ next ∷ batches) reg span = batch ∷ add_write_row (next ∷ batches) reg span

  unfoldable pub add_write_rows :
      List (ModbusWriteBatch Double)
      → List (ModbusRegister Double)
      → Fallible (List (ModbusWriteBatch Double))
  unfolding add_write_row write_row_span
  add_write_rows batches [] = ok batches
  add_write_rows batches (reg ∷ regs) =
      write_row_span reg >>= λ span. add_write_rows (add_write_row batches reg span) regs

  unfoldable pub build_modbus_write_batches :
      List (ModbusRegister Double) → Fallible (List (ModbusWriteBatch Double))
  unfolding keep_single add_write_rows
  build_modbus_write_batches regs = keep_single (keep has_values regs) >>= λ writable.
      add_write_rows [] (sort write_comes_after writable)

  unfoldable pub encode_rows : List (ModbusRegister Double) → Fallible (List ℕ)
  encode_rows [] = ok []
  encode_rows (reg ∷ regs) =
      encode_values doubles reg.type (modbus_write_row_values reg) >>= λ words.
      encode_rows regs >>= λ rest. ok (words ++ rest)

  unfoldable pub encode_modbus_register_write_values : ModbusWriteBatch Double → Fallible (List ℕ)
  unfolding encode_rows
  encode_modbus_register_write_values batch =
      if same_kind batch.kind register then encode_rows batch.rows else ok []

  unfoldable pub coils_of : List (ModbusRegister Double) → List Bool
  coils_of [] = []
  coils_of (reg ∷ regs) =
      map (λ v. not (is_zero (number v))) (modbus_write_row_values reg) ++ coils_of regs

  unfoldable pub encode_modbus_coil_write_values : ModbusWriteBatch Double → List Bool
  unfolding coils_of
  encode_modbus_coil_write_values batch =
      if same_kind batch.kind coil then coils_of batch.rows else []
