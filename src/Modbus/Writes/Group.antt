-- ===== src/Modbus/Writes/Group.antt =====
-- `buildModbusWriteBatches` of src/lib/modbus/modbus-batches.ts.
use bbcom.Base.{
  ℕ, ◌+◌, ◌≤◌, ◌≡◌, ◌⊎◌, inl, inr, refl, ap, sym, subst, ◌∙◌, true, List, [], ◌∷◌, ◌++◌, arith,
  ◌==◌, if◌then◌else◌, length,
}
use bbcom.Modbus.Batches.{ModbusRegister}
use bbcom.Modbus.Value.{Doubles}
use bbcom.Modbus.Writes.{
  WriteKind, coil, register, ModbusWriteBatch, kind_of, same_kind, write_limit, write_batch_fc,
  can_merge_write_rows, takes_row, extend_write_batch, new_write_batch,
}
use bbcom.Modbus.Writes.Spans.{span_of, is_writable, SpanFits, is_writable-SpanFits}

same_kind_sound : (k j : WriteKind) → same_kind k j ≡ true → k ≡ j
same_kind_sound coil coil e = refl
same_kind_sound register register e = refl
same_kind_sound coil register e = cc
same_kind_sound register coil e = cc

-- The function code of a request: one coil or several; registers with FC10, or one of them with FC06.
abbrev pub FcFits : WriteKind → ℕ → ℕ → Type 0
FcFits coil count fc = fc ≡ (if count == 1 then 0x05 else 0x0f)
FcFits register count fc = (fc ≡ 0x10) ⊎ ((fc ≡ 0x06) × (count ≡ 1))

merged-FcFits :
    (k : WriteKind) (count last_fc fc : ℕ)
    → can_merge_write_rows k last_fc fc ≡ true
    → FcFits k count (write_batch_fc k count fc)
unfolding can_merge_write_rows write_batch_fc
merged-FcFits coil count last_fc fc e = refl
merged-FcFits register count last_fc fc e = inl (ground arith)

single-FcFits :
    (k : WriteKind) (span fc : ℕ)
    → k ≡ kind_of fc
    → SpanFits fc span
    → FcFits k span (write_batch_fc k span fc)
unfolding write_batch_fc
single-FcFits coil span fc e h = refl
single-FcFits register span fc e (inl (c, h)) = let clash : register ≡ coil = e ∙ ap kind_of c in cc
single-FcFits register span fc e (inr (inl (c, h))) = inl (ground arith)
single-FcFits register span fc e (inr (inr (c, h))) = inr (ground arith, h)

-- A request is within the limit of its kind, unless it writes the coils of a single row.
abbrev pub Limited : WriteKind → ℕ → ℕ → Type 0
Limited k rows count = (count ≤ write_limit k) ⊎ ((k ≡ coil) × (rows ≡ 1) × (count ≤ 2000))

single-Limited :
    (k : WriteKind) (span fc : ℕ) → k ≡ kind_of fc → SpanFits fc span → Limited k 1 span
unfolding write_limit
single-Limited coil span fc e (inl (c, h)) = inr (refl, refl, h)
single-Limited register span fc e (inl (c, h)) =
    let clash : register ≡ coil = e ∙ ap kind_of c in cc
single-Limited coil span fc e (inr (inl (c, h))) = inl (omega arith)
single-Limited register span fc e (inr (inl (c, h))) = inl h
single-Limited coil span fc e (inr (inr (c, h))) = inl (omega arith)
single-Limited register span fc e (inr (inr (c, h))) = inl (omega arith)

module _ (doubles : Doubles) where
  open doubles use {Double}

  abbrev pub total_span : List (ModbusRegister Double) → ℕ
  total_span [] = 0
  total_span (reg ∷ regs) = span_of doubles reg + total_span regs

  -- Rows that pass the filters, of a slave and a kind, one behind the other.
  abbrev pub InRow : ℕ → WriteKind → ℕ → List (ModbusRegister Double) → Type 0
  InRow slave kind address [] = Unit {0}
  InRow slave kind address (reg ∷ regs) =
      ((is_writable doubles reg ≡ true)
        × (reg.slave_address ≡ slave)
        × (kind_of reg.function_code ≡ kind)
        × (reg.address ≡ address))
      × InRow slave kind (address + span_of doubles reg) regs

  pub record IsWriteRequest (batch : ModbusWriteBatch Double) : Type 0 where
    pub in_row : InRow batch.slave batch.kind batch.start batch.rows
    pub counted : batch.count ≡ total_span batch.rows
    pub occupied : 1 ≤ batch.count
    pub limited : Limited batch.kind (length batch.rows) batch.count
    pub coded : FcFits batch.kind batch.count batch.fc

  total_span-snoc :
      (regs : List (ModbusRegister Double)) (reg : ModbusRegister Double)
      → total_span (regs ++ reg ∷ []) ≡ total_span regs + span_of doubles reg
  total_span-snoc [] reg = omega arith
  total_span-snoc (r ∷ regs) reg = omega (arith, total_span-snoc regs reg)

  InRow-snoc :
      (slave : ℕ) (kind : WriteKind) (address : ℕ) (regs : List (ModbusRegister Double))
      (reg : ModbusRegister Double)
      → InRow slave kind address regs
      → is_writable doubles reg ≡ true
      → reg.slave_address ≡ slave
      → kind_of reg.function_code ≡ kind
      → reg.address ≡ address + total_span regs
      → InRow slave kind address (regs ++ reg ∷ [])
  InRow-snoc slave kind address [] reg h w s k a = ((w, s, k, omega arith), tt)
  InRow-snoc slave kind address (r ∷ regs) reg (p, h) w s k a =
      (p, InRow-snoc slave kind (address + span_of doubles r) regs reg h w s k (omega arith))

  pub new_write_batch-IsWriteRequest :
      (reg : ModbusRegister Double)
      → is_writable doubles reg ≡ true
      → IsWriteRequest (new_write_batch doubles reg (span_of doubles reg))
  unfolding new_write_batch
  new_write_batch-IsWriteRequest reg w =
      let (some_items, fits) = is_writable-SpanFits doubles reg w in
      record {
        in_row = ((w, refl, refl, refl), tt);
        counted = omega arith;
        occupied = some_items;
        limited = single-Limited (kind_of reg.function_code) _ reg.function_code refl fits;
        coded = single-FcFits (kind_of reg.function_code) _ reg.function_code refl fits;
      }

  takes_row-facts :
      (last : ModbusWriteBatch Double) (reg : ModbusRegister Double) (span : ℕ)
      → takes_row doubles last reg span ≡ true
      → (last.slave ≡ reg.slave_address)
        × (same_kind last.kind (kind_of reg.function_code) ≡ true)
        × (can_merge_write_rows last.kind last.fc reg.function_code ≡ true)
        × (last.start + last.count ≡ reg.address)
        × (last.count + span ≤ write_limit (kind_of reg.function_code))
  unfolding takes_row
  takes_row-facts last reg span e = ground arith

  pub extend_write_batch-IsWriteRequest :
      (last : ModbusWriteBatch Double) (reg : ModbusRegister Double)
      → is_writable doubles reg ≡ true
      → takes_row doubles last reg (span_of doubles reg) ≡ true
      → IsWriteRequest last
      → IsWriteRequest (extend_write_batch doubles last reg (span_of doubles reg))
  unfolding extend_write_batch
  extend_write_batch-IsWriteRequest last reg w e h =
      let (s, k, m, a, l) = takes_row-facts last reg (span_of doubles reg) e in
      let kind = same_kind_sound last.kind (kind_of reg.function_code) k in
      record {
        in_row =
            InRow-snoc last.slave last.kind last.start last.rows reg h.in_row w (sym s) (sym kind)
              (omega (arith, h.counted));
        counted = omega (arith, h.counted, total_span-snoc last.rows reg);
        occupied = omega (arith, h.occupied);
        limited = inl (subst (λ j. last.count + span_of doubles reg ≤ write_limit j) (sym kind) l);
        coded =
            subst
              (λ j.
                FcFits last.kind (last.count + span_of doubles reg)
                  (write_batch_fc j (last.count + span_of doubles reg) reg.function_code))
              kind
              (merged-FcFits last.kind (last.count + span_of doubles reg) last.fc reg.function_code
                m);
      }
