-- ===== src/Modbus/Batches/Merge.antt =====
-- `buildModbusReadBatches` of src/lib/modbus/modbus-batches.ts: its first loop.
use bbcom.Base.{
  ◌-◌, ◌≡◌, refl, ap, sym, ◌∙◌, true, List, [], ◌∷◌, ◌++◌, append_assoc, append-nil, arith,
}
use bbcom.Base.Sort.{if-both, Each}
use bbcom.Modbus.Batches.{
  ModbusRegister, ReadRow, ModbusReadBatch, continues, extend_batch, new_batch, add_row, add_rows,
}
use bbcom.Modbus.Batches.Rows.{
  modbus_read_row_count-bounds, IsLaid, Laid-snoc, total_of-snoc, regs_of, regs_of_all,
}

module _ {D : Type 0} where
  new_batch-IsLaid : (reg : ModbusRegister D) → IsLaid (new_batch reg)
  unfolding new_batch
  new_batch-IsLaid reg = record {
    laid = ((refl, refl, refl, omega arith), tt);
    counted = omega arith;
    occupied = (modbus_read_row_count-bounds reg).0;
  }

  extend_batch-IsLaid :
      (last : ModbusReadBatch D) (reg : ModbusRegister D)
      → continues last reg ≡ true
      → IsLaid last
      → IsLaid (extend_batch last reg)
  unfolding continues extend_batch
  extend_batch-IsLaid last reg e h = record {
    laid =
        Laid-snoc last.slave last.fc last.start 0 last.rows
          (record { reg = reg; offset = reg.address - last.start }) h.laid (ground arith)
          (ground arith) (ground (arith, h.counted)) (ground (arith, h.counted));
    counted = omega (
      arith,
      h.counted,
      total_of-snoc last.rows (record { reg = reg; offset = reg.address - last.start }),
    );
    occupied = omega (arith, h.occupied);
  }

  add_row-IsLaid :
      (batches : List (ModbusReadBatch D)) (reg : ModbusRegister D)
      → Each IsLaid batches
      → Each IsLaid (add_row batches reg)
  unfolding add_row
  add_row-IsLaid [] reg hs = (new_batch-IsLaid reg, tt)
  add_row-IsLaid (last ∷ []) reg (h, hs) =
      if-both (Each IsLaid) (continues last reg) (extend_batch last reg ∷ [])
        (last ∷ new_batch reg ∷ []) (λ e. (extend_batch-IsLaid last reg e h, tt))
        (λ e. (h, (new_batch-IsLaid reg, tt)))
  add_row-IsLaid (batch ∷ next ∷ batches) reg (h, hs) = (h, add_row-IsLaid (next ∷ batches) reg hs)

  map-snoc :
      (rows : List (ReadRow D)) (row : ReadRow D)
      → regs_of (rows ++ row ∷ []) ≡ regs_of rows ++ row.reg ∷ []
  map-snoc [] row = refl
  map-snoc (r ∷ rows) row = ap (◌∷◌ r.reg) (map-snoc rows row)

  add_row-regs :
      (batches : List (ModbusReadBatch D)) (reg : ModbusRegister D)
      → regs_of_all (add_row batches reg) ≡ regs_of_all batches ++ reg ∷ []
  unfolding add_row extend_batch new_batch
  add_row-regs [] reg = refl
  add_row-regs (last ∷ []) reg =
      if-both (λ bs. regs_of_all bs ≡ (regs_of last.rows ++ []) ++ reg ∷ []) (continues last reg)
        (extend_batch last reg ∷ []) (last ∷ new_batch reg ∷ [])
        (λ e.
          append-nil (regs_of (extend_batch last reg).rows)
          ∙ map-snoc last.rows (record { reg = reg; offset = reg.address - last.start })
          ∙ ap (λ l. l ++ reg ∷ []) (sym (append-nil (regs_of last.rows))))
        (λ e. ap (λ l. l ++ reg ∷ []) (sym (append-nil (regs_of last.rows))))
  add_row-regs (batch ∷ next ∷ batches) reg = rw (
    add_row-regs (next ∷ batches) reg,
    append_assoc (regs_of batch.rows) (regs_of_all (next ∷ batches)) (reg ∷ []),
  )

  pub add_rows-IsLaid :
      (regs : List (ModbusRegister D)) (batches : List (ModbusReadBatch D))
      → Each IsLaid batches
      → Each IsLaid (add_rows batches regs)
  unfolding add_rows
  add_rows-IsLaid [] batches hs = hs
  add_rows-IsLaid (reg ∷ regs) batches hs =
      add_rows-IsLaid regs (add_row batches reg) (add_row-IsLaid batches reg hs)

  -- The loop puts every row behind the rows it has.
  pub add_rows-regs :
      (regs : List (ModbusRegister D)) (batches : List (ModbusReadBatch D))
      → regs_of_all (add_rows batches regs) ≡ regs_of_all batches ++ regs
  unfolding add_rows
  add_rows-regs [] batches = sym (append-nil (regs_of_all batches))
  add_rows-regs (reg ∷ regs) batches =
      add_rows-regs regs (add_row batches reg)
      ∙ ap (λ l. l ++ regs) (add_row-regs batches reg)
      ∙ append_assoc (regs_of_all batches) (reg ∷ []) regs
