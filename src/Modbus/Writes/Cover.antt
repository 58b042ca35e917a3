-- ===== src/Modbus/Writes/Cover.antt =====
-- `buildModbusWriteBatches` of src/lib/modbus/modbus-batches.ts as a whole.
use bbcom.Base.{
  ◌≡◌, refl, ap, sym, subst, ◌∙◌, true, false, List, [], ◌∷◌, ◌++◌, append_assoc, append-nil, ok,
  arith, Bool-cases, inl, inr, ℕ,
}
use bbcom.Base.Sort.{
  keep, keep-Each, Each, if-both, sort, sort-Each, sort-perm, IsSorted, sort-IsSorted,
}
use mathlib.Core.List.{Perm}
use bbcom.Modbus.Batches.{ModbusRegister}
use bbcom.Modbus.Value.{Doubles}
use bbcom.Modbus.Writes.{
  ModbusWriteBatch, write_comes_after, has_values, keep_single, takes_row, extend_write_batch,
  new_write_batch, add_write_row, add_write_rows, build_modbus_write_batches,
}
use bbcom.Modbus.Writes.Spans.{span_of, is_writable, has_values-span}
use bbcom.Modbus.Writes.Group.{
  IsWriteRequest, new_write_batch-IsWriteRequest, extend_write_batch-IsWriteRequest,
}

-- Two rows do not each come after the other.
write_comes_after-asymmetric :
    {D : Type 0} (a b : ModbusRegister D)
    → write_comes_after a b ≡ true
    → write_comes_after b a ≡ false
unfolding write_comes_after
write_comes_after-asymmetric a b e = ground arith

module _ (doubles : Doubles) where
  open doubles use {Double}

  abbrev pub written_rows : List (ModbusWriteBatch Double) → List (ModbusRegister Double)
  written_rows [] = []
  written_rows (batch ∷ batches) = batch.rows ++ written_rows batches

  abbrev AllWritable : List (ModbusRegister Double) → Type 0
  AllWritable regs = Each (λ reg. is_writable doubles reg ≡ true) regs

  add_write_row-IsWriteRequest :
      (batches : List (ModbusWriteBatch Double)) (reg : ModbusRegister Double)
      → is_writable doubles reg ≡ true
      → Each (IsWriteRequest doubles) batches
      → Each (IsWriteRequest doubles) (add_write_row doubles batches reg (span_of doubles reg))
  unfolding add_write_row
  add_write_row-IsWriteRequest [] reg w hs = (new_write_batch-IsWriteRequest doubles reg w, tt)
  add_write_row-IsWriteRequest (last ∷ []) reg w (h, hs) =
      let span = span_of doubles reg in
      if-both (Each (IsWriteRequest doubles)) (takes_row doubles last reg span)
        (extend_write_batch doubles last reg span ∷ [])
        (last ∷ new_write_batch doubles reg span ∷ [])
        (λ e. (extend_write_batch-IsWriteRequest doubles last reg w e h, tt))
        (λ e. (h, (new_write_batch-IsWriteRequest doubles reg w, tt)))
  add_write_row-IsWriteRequest (batch ∷ next ∷ batches) reg w (h, hs) =
      (h, add_write_row-IsWriteRequest (next ∷ batches) reg w hs)

  add_write_row-rows :
      (batches : List (ModbusWriteBatch Double)) (reg : ModbusRegister Double) (span : ℕ)
      → written_rows (add_write_row doubles batches reg span) ≡ written_rows batches ++ reg ∷ []
  unfolding add_write_row extend_write_batch new_write_batch
  add_write_row-rows [] reg span = refl
  add_write_row-rows (last ∷ []) reg span =
      if-both (λ bs. written_rows bs ≡ (last.rows ++ []) ++ reg ∷ [])
        (takes_row doubles last reg span) (extend_write_batch doubles last reg span ∷ [])
        (last ∷ new_write_batch doubles reg span ∷ [])
        (λ e.
          append-nil (last.rows ++ reg ∷ []) ∙ ap (λ l. l ++ reg ∷ []) (sym (append-nil last.rows)))
        (λ e. ap (λ l. l ++ reg ∷ []) (sym (append-nil last.rows)))
  add_write_row-rows (batch ∷ next ∷ batches) reg span =
      ap (λ l. batch.rows ++ l) (add_write_row-rows (next ∷ batches) reg span)
      ∙ sym (append_assoc batch.rows (written_rows (next ∷ batches)) (reg ∷ []))

  writable-has_values :
      (reg : ModbusRegister Double) → is_writable doubles reg ≡ true → has_values doubles reg ≡ true
  unfolding is_writable
  writable-has_values reg w = ground arith

  -- The loop over rows that pass the filters returns, with requests that hold them behind the others.
  add_write_rows-IsWriteRequest :
      (regs : List (ModbusRegister Double)) (batches : List (ModbusWriteBatch Double))
      → AllWritable regs
      → Each (IsWriteRequest doubles) batches
      → (out : List (ModbusWriteBatch Double)) × (add_write_rows doubles batches regs ≡ ok out)
        × Each (IsWriteRequest doubles) out
        × (written_rows out ≡ written_rows batches ++ regs)
  unfolding add_write_rows
  add_write_rows-IsWriteRequest [] batches ws hs =
      (batches, refl, hs, sym (append-nil (written_rows batches)))
  add_write_rows-IsWriteRequest (reg ∷ regs) batches (w, ws) hs =
      let span = span_of doubles reg in
      let next = add_write_row doubles batches reg span in
      let (out, e, requests, rows) =
        add_write_rows-IsWriteRequest regs next ws
          (add_write_row-IsWriteRequest batches reg w hs) in
      (
        out,
        rw (has_values-span doubles reg (writable-has_values reg w)) e,
        requests,
        rows
            ∙ ap (λ l. l ++ regs) (add_write_row-rows batches reg span)
            ∙ append_assoc (written_rows batches) (reg ∷ []) regs,
      )

  -- The filters together never throw.
  keep_single-keep :
      (regs : List (ModbusRegister Double))
      → keep_single doubles (keep (has_values doubles) regs) ≡ ok (keep (is_writable doubles) regs)
  unfolding keep_single keep is_writable
  keep_single-keep [] = refl
  keep_single-keep (reg ∷ regs) = elim (Bool-cases (has_values doubles reg)) [
    | inl e ↦ rw (e, has_values-span doubles reg e, keep_single-keep regs)
    | inr e ↦ rw e (keep_single-keep regs)
  ]

  -- `buildModbusWriteBatches` never throws. Every request that it makes of any rows writes at least
  -- one item, has the rows of one slave and one kind without a gap from its start on, has FC05 for one coil
  -- and FC0F for several, FC10 for registers or FC06 for a single one, and is within the limit of its kind
  -- unless it is the coils of one row, at most 2000. The rows of all requests together are those with a write
  -- function code and values to write, which FC06 encodes as one register, each of them once, in
  -- the order of the comparison.
  pub build_modbus_write_batches-covers :
      (regs : List (ModbusRegister Double))
      → (out : List (ModbusWriteBatch Double)) × (build_modbus_write_batches doubles regs ≡ ok out)
        × Each (IsWriteRequest doubles) out
        × IsSorted write_comes_after (written_rows out)
        × Perm (written_rows out) (keep (is_writable doubles) regs)
  unfolding build_modbus_write_batches
  build_modbus_write_batches-covers regs =
      let kept = keep (is_writable doubles) regs in
      let writable = keep-Each (is_writable doubles) regs in
      let sorted = sort write_comes_after kept in
      let (out, e, requests, rows) =
        add_write_rows-IsWriteRequest sorted []
          (sort-Each write_comes_after (λ reg. is_writable doubles reg ≡ true) kept writable) tt in
      (
        out,
        rw (keep_single-keep regs) e,
        requests,
        subst (IsSorted write_comes_after) (sym rows)
            (sort-IsSorted write_comes_after write_comes_after-asymmetric kept),
        subst (λ l. Perm l kept) (sym rows) (sort-perm write_comes_after kept),
      )
