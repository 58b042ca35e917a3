-- ===== src/Modbus/Batches/Tests.antt =====
-- Tests of the batches of src/lib/modbus/modbus-batches.ts, and the theorems at concrete tables.
use bbcom.Base.{ℕ, ◌≡◌, refl, none, List, [], ◌∷◌, map}
use bbcom.Base.Number.{number, of_ℕ}
use bbcom.Base.Sort.{keep, sort, IsSorted, Each}
use mathlib.Core.List.{Perm}
use bbcom.Modbus.Core.{
  uint16, is_read_fc, register_count_for_values, max_value_count_for_registers, register_span,
}
use bbcom.Modbus.Batches.{
  ModbusRegister, build_modbus_read_batches, comes_after, modbus_read_row_count,
}
use bbcom.Modbus.Batches.Rows.{regs_of_all}
use bbcom.Modbus.Batches.Split.{IsRequest}
use bbcom.Modbus.Batches.Cover.{build_modbus_read_batches-covers}

abbrev row : ℕ → ℕ → ℕ → ModbusRegister ℕ
row fc address quantity = record {
  id = [];
  slave_address = 1;
  function_code = fc;
  address = address;
  quantity = number (of_ℕ quantity);
  type = uint16;
  value = none;
  values = none;
}

abbrev table : List (ModbusRegister ℕ)
table = row 3 100 60 ∷ row 6 0 1 ∷ row 3 0 100 ∷ row 1 5 8 ∷ row 3 160 70 ∷ []

abbrev counts : List ℕ
counts = map (λ batch. batch.count) (build_modbus_read_batches table)

-- The rows of the holding registers make a run of 230 and need two requests.
counts_test : counts ≡ 8 ∷ 100 ∷ 60 ∷ 70 ∷ []
unfolding build_modbus_read_batches sort keep comes_after modbus_read_row_count
    register_count_for_values max_value_count_for_registers register_span
counts_test = refl

build_modbus_read_batches-covers_example :
    Each IsRequest (build_modbus_read_batches table)
    × IsSorted comes_after (regs_of_all (build_modbus_read_batches table))
    × Perm
        (regs_of_all (build_modbus_read_batches table))
        (keep (λ reg. is_read_fc reg.function_code) table)
build_modbus_read_batches-covers_example = build_modbus_read_batches-covers table
