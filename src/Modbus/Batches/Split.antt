-- ===== src/Modbus/Batches/Split.antt =====
-- `splitReadBatch` of src/lib/modbus/modbus-batches.ts.
use bbcom.Base.{
  ℕ, zero, suc, ◌+◌, ◌-◌, ◌≤◌, ◌≡◌, refl, ap, ap₂, sym, subst, ◌∙◌, List, [], ◌∷◌, ◌++◌, append-nil,
  arith, ltb, leb, length, drop, length-drop,
}
use bbcom.Base.Sort.{if-both, Each, Each-append}
use bbcom.Modbus.Batches.{
  ReadRow, ModbusReadBatch, modbus_read_row_count, read_limit, take_rows, split_rounds,
  split_read_batch, split_all,
}
use bbcom.Modbus.Batches.Rows.{
  modbus_read_row_count-bounds, IsLaid, Laid, total_of, regs_of, regs_of_all, regs_of_all-append,
}

-- A request that the device may be sent.
pub record IsRequest {D : Type 0} (batch : ModbusReadBatch D) : Type 0 where
  pub in_row : IsLaid batch
  pub limited : batch.count ≤ read_limit batch.fc

-- What the inner loop takes off `rows`: the rows that a request has from its item `used` on.
record Cut {D : Type 0} (slave fc start moved used limit : ℕ) (rows : List (ReadRow D))
    (cut : List (ReadRow D) × ℕ) : Type 0 where
  taken : Laid slave fc (start + moved) used (cut.0)
  left : Laid slave fc start (moved + cut.1) (drop (length (cut.0)) rows)
  all : regs_of (cut.0) ++ regs_of (drop (length (cut.0)) rows) ≡ regs_of rows
  count : cut.1 ≡ used + total_of (cut.0)
  bounded : cut.1 ≤ limit

module _ {D : Type 0} where
  take_rows-Cut :
      (slave fc start moved used limit : ℕ) (rows : List (ReadRow D))
      → used ≤ limit
      → Laid slave fc start (moved + used) rows
      → Cut slave fc start moved used limit rows (take_rows limit moved used rows)
  unfolding take_rows
  take_rows-Cut slave fc start moved used limit [] u h = record {
    taken = tt;
    left = tt;
    all = refl;
    count = omega arith;
    bounded = u;
  }
  take_rows-Cut slave fc start moved used limit (row ∷ rows) u ((s, f, o, a), h) =
      let span = modbus_read_row_count row.reg in
      let row' : ReadRow D = record { reg = row.reg; offset = row.offset - moved } in
      let (rest, total) = take_rows limit moved (used + span) rows in
      if-both (Cut slave fc start moved used limit (row ∷ rows)) (ltb limit (used + span))
        ([], used) (row' ∷ rest, total)
        (λ e. record {
          taken = tt;
          left = ((s, f, o, a), h);
          all = refl;
          count = omega arith;
          bounded = u;
        })
        (λ e.
          let cut =
            take_rows-Cut slave fc start moved (used + span) limit rows (ground arith)
              (subst (λ k. Laid slave fc start k rows) (omega arith) h) in
          record {
            taken = ((s, f, omega arith, omega arith), cut.taken);
            left = cut.left;
            all = ap (λ l. row.reg ∷ l) cut.all;
            count = omega (arith, cut.count);
            bounded = cut.bounded;
          })

  -- A request has room for the first row.
  take_rows-first :
      (limit moved : ℕ) (row : ReadRow D) (rows : List (ReadRow D))
      → modbus_read_row_count row.reg ≤ limit
      → 1 ≤ length ((take_rows limit moved 0 (row ∷ rows)).0)
  unfolding take_rows
  take_rows-first limit moved row rows h = ground arith

  total_of-positive : (rows : List (ReadRow D)) → 1 ≤ length rows → 1 ≤ total_of rows
  total_of-positive [] h = absurd (omega arith)
  total_of-positive (row ∷ rows) h = omega (arith, modbus_read_row_count-bounds row.reg)

  -- The request that a round makes of what it takes.
  Cut-IsRequest :
      (slave fc start cursor moved : ℕ) (rows slice : List (ReadRow D)) (used : ℕ)
      → cursor ≡ start + moved
      → 1 ≤ length slice
      → Cut slave fc start moved 0 (read_limit fc) rows (slice, used)
      → IsRequest (record { slave = slave; fc = fc; start = cursor; count = used; rows = slice })
  Cut-IsRequest slave fc start cursor moved rows slice used e h cut = record {
    in_row = record {
      laid = subst (λ k. Laid slave fc k 0 slice) (sym e) cut.taken;
      counted = omega (arith, cut.count);
      occupied = omega (arith, cut.count, total_of-positive slice h);
    };
    limited = cut.bounded;
  }

  -- With a round for every row that is left, the rounds make requests that hold all of them in order.
  split_rounds-IsRequest :
      (rounds : ℕ) (batch : ModbusReadBatch D) (rows : List (ReadRow D)) (cursor moved : ℕ)
      → length rows ≤ rounds
      → cursor ≡ batch.start + moved
      → Laid batch.slave batch.fc batch.start moved rows
      → Each IsRequest (split_rounds rounds batch rows cursor)
        × (regs_of_all (split_rounds rounds batch rows cursor) ≡ regs_of rows)
  unfolding split_rounds
  split_rounds-IsRequest rounds batch [] cursor moved n e h = (tt, refl)
  split_rounds-IsRequest zero batch (row ∷ rows) cursor moved n e h = absurd (omega arith)
  split_rounds-IsRequest (suc rounds) batch (row ∷ rows) cursor moved n e ((s, f, o, a), h) =
      let limit = read_limit batch.fc in
      let (slice, used) = take_rows limit (cursor - batch.start) 0 (row ∷ rows) in
      let fits : modbus_read_row_count row.reg ≤ limit =
        subst (λ k. modbus_read_row_count row.reg ≤ read_limit k) f
          ((modbus_read_row_count-bounds row.reg).1) in
      let some_row = take_rows-first limit (cursor - batch.start) row rows fits in
      let moved_eq : cursor - batch.start ≡ moved = omega arith in
      let cut : Cut batch.slave batch.fc batch.start moved 0 limit (row ∷ rows) (slice, used) =
        subst
          (λ k.
            Cut batch.slave batch.fc batch.start moved 0 limit (row ∷ rows)
              (take_rows limit k 0 (row ∷ rows)))
          (sym moved_eq)
          (take_rows-Cut batch.slave batch.fc batch.start moved 0 limit (row ∷ rows) (omega arith) (
            subst (λ k. Laid batch.slave batch.fc batch.start k (row ∷ rows)) (omega arith)
              ((s, f, o, a), h))) in
      let (requests, regs) =
        split_rounds-IsRequest rounds batch (drop (length slice) (row ∷ rows)) (cursor + used)
          (moved + used) (omega (arith, length-drop (length slice) (row ∷ rows))) (omega arith)
          cut.left in
      (
        (
          Cut-IsRequest batch.slave batch.fc batch.start cursor moved (row ∷ rows) slice used e
              some_row cut,
          requests,
        ),
        ap (λ l. regs_of slice ++ l) regs ∙ cut.all,
      )

  split_read_batch-IsRequest :
      (batch : ModbusReadBatch D)
      → IsLaid batch
      → Each IsRequest (split_read_batch batch)
        × (regs_of_all (split_read_batch batch) ≡ regs_of batch.rows)
  unfolding split_read_batch
  split_read_batch-IsRequest batch h =
      if-both (λ bs. Each IsRequest bs × (regs_of_all bs ≡ regs_of batch.rows))
        (leb batch.count (read_limit batch.fc)) (batch ∷ [])
        (split_rounds (length batch.rows) batch batch.rows batch.start)
        (λ e.
          ((record { in_row = h; limited = ground arith }, tt), append-nil (regs_of batch.rows)))
        (λ e.
          split_rounds-IsRequest (length batch.rows) batch batch.rows batch.start 0 (omega arith)
            (omega arith) h.laid)

  pub split_all-IsRequest :
      (batches : List (ModbusReadBatch D))
      → Each IsLaid batches
      → Each IsRequest (split_all batches) × (regs_of_all (split_all batches) ≡ regs_of_all batches)
  unfolding split_all
  split_all-IsRequest [] hs = (tt, refl)
  split_all-IsRequest (batch ∷ batches) (h, hs) =
      let (requests, regs) = split_read_batch-IsRequest batch h in
      let (requests', regs') = split_all-IsRequest batches hs in
      (
        Each-append IsRequest (split_read_batch batch) (split_all batches) requests requests',
        regs_of_all-append (split_read_batch batch) (split_all batches) ∙ ap₂ ◌++◌ regs regs',
      )
