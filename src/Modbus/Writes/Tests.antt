-- ===== src/Modbus/Writes/Tests.antt =====
-- Tests of the write requests of src/lib/modbus/modbus-batches.ts, and the theorems at a concrete table.
use bbcom.Base.{ℕ, ◌≡◌, refl, none, some, List, [], ◌∷◌, map, ok}
use bbcom.Base.Number.{Number, number, of_ℕ}
use bbcom.Base.Sort.{keep, sort, IsSorted, Each}
use mathlib.Core.List.{Perm}
use bbcom.Modbus.Core.{uint16, Fallible, max_value_count_for_registers, register_span}
use bbcom.Modbus.Batches.{ModbusRegister, modbus_data_value_count}
use bbcom.Modbus.Tests.{numbers}
use bbcom.Modbus.Value.{encode_value, encode_finite, encode_integer}
use bbcom.Modbus.Value.Blocks.{encode_values}
use bbcom.Modbus.Writes.{
  ModbusWriteBatch, has_values, build_modbus_write_batches, write_comes_after,
}
use bbcom.Modbus.Writes.Spans.{is_writable}
use bbcom.Modbus.Writes.Group.{IsWriteRequest}
use bbcom.Modbus.Writes.Cover.{written_rows, build_modbus_write_batches-covers}
use bbcom.Modbus.Writes.Encode.{Encodes, build_modbus_write_batches-Encodes}

abbrev row : ℕ → ℕ → List Number → ModbusRegister Number
row fc address values = record {
  id = [];
  slave_address = 1;
  function_code = fc;
  address = address;
  quantity = number (of_ℕ 2);
  type = uint16;
  value = none;
  values = some values;
}

abbrev table : List (ModbusRegister Number)
table =
    row 0x10 12 (of_ℕ 3 ∷ of_ℕ 4 ∷ [])
    ∷ row 0x05 0 (of_ℕ 1 ∷ [])
    ∷ row 0x10 10 (of_ℕ 1 ∷ of_ℕ 2 ∷ [])
    ∷ row 0x05 1 (of_ℕ 0 ∷ of_ℕ 1 ∷ [])
    ∷ []

build_modbus_write_batches-covers_example :
    (out : List (ModbusWriteBatch Number)) × (build_modbus_write_batches numbers table ≡ ok out)
    × Each (IsWriteRequest numbers) out
    × IsSorted write_comes_after (written_rows numbers out)
    × Perm (written_rows numbers out) (keep (is_writable numbers) table)
build_modbus_write_batches-covers_example = build_modbus_write_batches-covers numbers table

build_modbus_write_batches-Encodes_example :
    (out : List (ModbusWriteBatch Number)) × (build_modbus_write_batches numbers table ≡ ok out)
    × Each (Encodes numbers) out
build_modbus_write_batches-Encodes_example = build_modbus_write_batches-Encodes numbers table

abbrev counts : Fallible (List (ModbusWriteBatch Number)) → List ℕ
counts (ok out) = map (λ batch. batch.count) out
counts _ = []

-- Three coils in one request, and four registers in one.
counts_test : counts (build_modbus_write_batches numbers table) ≡ 3 ∷ 4 ∷ []
unfolding build_modbus_write_batches keep has_values modbus_data_value_count
    max_value_count_for_registers register_span encode_values encode_value sort write_comes_after
    encode_finite encode_integer
counts_test = refl
