-- ===== src/Modbus/Batches/Cover.antt =====
-- `buildModbusReadBatches` of src/lib/modbus/modbus-batches.ts as a whole.
use bbcom.Base.{subst, sym, ◌∙◌, List, []}
use bbcom.Base.Sort.{keep, sort, sort-perm, sort-IsSorted, IsSorted, Each}
use mathlib.Core.List.{Perm}
use bbcom.Modbus.Core.{is_read_fc}
use bbcom.Modbus.Batches.{ModbusRegister, add_rows, build_modbus_read_batches, comes_after}
use bbcom.Modbus.Batches.Rows.{comes_after-asymmetric, regs_of_all}
use bbcom.Modbus.Batches.Merge.{add_rows-IsLaid, add_rows-regs}
use bbcom.Modbus.Batches.Split.{IsRequest, split_all-IsRequest}

-- From any rows, every request of `buildModbusReadBatches` reads between one item and the limit of
-- its function code, its rows are of its slave and function code and follow each other without a gap
-- from its start on, at the offsets that they carry; and the rows of all requests together are the rows
-- with a read function code, each of them once, by slave, function code and address.
pub build_modbus_read_batches-covers :
    {D : Type 0} (regs : List (ModbusRegister D))
    → Each IsRequest (build_modbus_read_batches regs)
      × IsSorted comes_after (regs_of_all (build_modbus_read_batches regs))
      × Perm
          (regs_of_all (build_modbus_read_batches regs))
          (keep (λ reg. is_read_fc reg.function_code) regs)
unfolding build_modbus_read_batches
build_modbus_read_batches-covers regs =
    let readable = keep (λ reg. is_read_fc reg.function_code) regs in
    let sorted = sort comes_after readable in
    let (requests, same) =
      split_all-IsRequest (add_rows [] sorted) (add_rows-IsLaid sorted [] tt) in
    let rows = sym (same ∙ add_rows-regs sorted []) in
    (
      requests,
      subst (IsSorted comes_after) rows (sort-IsSorted comes_after comes_after-asymmetric readable),
      subst (λ l. Perm l readable) rows (sort-perm comes_after readable),
    )
