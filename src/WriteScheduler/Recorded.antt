-- ===== src/WriteScheduler/Recorded.antt =====
-- What the write scheduler (src/lib/serial-write-scheduler.ts) has written and reported.
use bbcom.Base.{
  ℕ, ◌+◌, ◌≤◌, ◌≡◌, refl, sym, ap, ◌∙◌, Bool, true, false, Option, none, some, List, [], ◌∷◌, ◌++◌,
  arith, if◌then◌else◌, take, append_assoc, append-nil,
}
use bbcom.WriteScheduler.{
  Bytes, SendResult, WriteOperation, is_settled, resting, Scheduler, active_of, Gate, settle,
  take_next, start_operation, is_idle, resolve_idle_waiters,
}
use bbcom.WriteScheduler.Accounting.{Reports, ReportsAny, IsFresh, AllFresh}
use bbcom.WriteScheduler.Steps.{start_operation-StandsAt, fresh-IsSound}
use bbcom.WriteScheduler.Closing.{Reports-result}

-- The bytes of operations that the driver has acknowledged, in the order of the operations: the beginning of
-- each payload.
unfoldable pub sent_by : List WriteOperation → Bytes
sent_by [] = []
sent_by (op ∷ ops) = take (op.sent_bytes + op.late_bytes) op.payload ++ sent_by ops

abbrev pub sent_active : Option WriteOperation → Bytes
sent_active none = []
sent_active (some op) = take (op.sent_bytes + op.late_bytes) op.payload

-- An operation whose promise has been resolved, with a true result.
abbrev pub IsClosed : WriteOperation → Type 0
IsClosed op = (r : SendResult) × (op.result ≡ some r) × Reports op r

abbrev pub AllClosed : List WriteOperation → Type 0
AllClosed [] = Unit {0}
AllClosed (op ∷ ops) = IsClosed op × AllClosed ops

-- What has been written is what the finished operations have sent, followed by what the active one has.
pub record IsRecorded (finished : List WriteOperation) (active : Option WriteOperation)
    (wire : Bytes) : Type 0 where
  pub closed : AllClosed finished
  pub on_wire : wire ≡ sent_by finished ++ sent_active active

abbrev pub Recorded : Scheduler → Type 0
Recorded s = IsRecorded s.finished (active_of s.drain) s.wire

pub AllClosed-snoc :
    (ops : List WriteOperation) (op : WriteOperation)
    → AllClosed ops
    → IsClosed op
    → AllClosed (ops ++ op ∷ [])
AllClosed-snoc [] op c d = (d, tt)
AllClosed-snoc (x ∷ ops) op c d = (c.0, AllClosed-snoc ops op c.1 d)

pub sent_by_snoc :
    (ops : List WriteOperation) (op : WriteOperation)
    → sent_by (ops ++ op ∷ []) ≡ sent_by ops ++ take (op.sent_bytes + op.late_bytes) op.payload
unfolding sent_by
sent_by_snoc [] op = append-nil (take (op.sent_bytes + op.late_bytes) op.payload)
sent_by_snoc (x ∷ ops) op =
    ap (λ t. take (x.sent_bytes + x.late_bytes) x.payload ++ t) (sent_by_snoc ops op)
    ∙ sym (
        append_assoc (take (x.sent_bytes + x.late_bytes) x.payload) (sent_by ops)
          (take (op.sent_bytes + op.late_bytes) op.payload))

-- The active operation is finished.
pub finish-IsRecorded :
    (finished : List WriteOperation) (op : WriteOperation) (wire : Bytes) (r : SendResult)
    → IsRecorded finished (some op) wire
    → IsClosed (settle op r)
    → IsRecorded (finished ++ settle op r ∷ []) none wire
unfolding settle
finish-IsRecorded finished op wire r v c = record {
  closed = AllClosed-snoc finished (settle op r) v.closed c;
  on_wire =
      v.on_wire
      ∙ sym (sent_by_snoc finished (settle op r))
      ∙ sym (append-nil (sent_by (finished ++ settle op r ∷ [])));
}

pub settle-IsClosed :
    (op : WriteOperation) (r : SendResult)
    → ReportsAny op op.result
    → Reports op r
    → IsClosed (settle op r)
unfolding settle
settle-IsClosed op r old p = by_result op.result old
  where
    by_result :
        (o : Option SendResult)
        → ReportsAny op o
        → IsClosed (record op { result = elim o [ none ↦ some r | some x ↦ some x ] })
    by_result none u = (r, refl, Reports-result op r _ p)
    by_result (some x) u = (x, refl, Reports-result op x _ u)

pub nothing_acknowledged : (op : WriteOperation) → IsFresh op → op.sent_bytes + op.late_bytes ≡ 0
nothing_acknowledged op f = omega (arith, f.unsent, f.unanswered)

-- The next operation of the queue has sent nothing.
start_fresh :
    (gate : Gate) (accepting : Bool) (chunk_bytes : ℕ) (op : WriteOperation)
    → IsFresh op
    → 1 ≤ chunk_bytes
    → sent_active (active_of (start_operation gate accepting chunk_bytes op)) ≡ []
start_fresh gate accepting chunk_bytes op f h =
    ap sent_active
      (start_operation-StandsAt chunk_bytes gate accepting op (fresh-IsSound op f) f.unsent h).at
    ∙ ap (λ n. take n op.payload) (nothing_acknowledged op f)

pub if-Recorded :
    (b : Bool) (x y : Scheduler)
    → (b ≡ true → Recorded x)
    → (b ≡ false → Recorded y)
    → Recorded (if b then x else y)
if-Recorded true x y f g = f refl
if-Recorded false x y f g = g refl

pub resolve-Recorded : (s : Scheduler) → Recorded s → Recorded (resolve_idle_waiters s)
unfolding resolve_idle_waiters
resolve-Recorded s v = if-Recorded (is_idle s) _ _ (λ _. v) (λ _. v)

pub take_next-Recorded :
    (gate : Gate) (s : Scheduler) (queue : List WriteOperation)
    → AllFresh queue
    → 1 ≤ s.limits.chunk_bytes
    → IsRecorded s.finished none s.wire
    → Recorded (take_next gate s queue)
unfolding take_next
take_next-Recorded gate s [] f h v = resolve-Recorded (record s { queue = []; drain = resting }) v
take_next-Recorded gate s (op ∷ ops) f h v =
    if-Recorded (is_settled op.result) _ _ (λ e. absurd (ground (arith, e, f.0.unsettled)))
      (λ _. record {
        closed = v.closed;
        on_wire =
            v.on_wire
            ∙ ap (λ t. sent_by s.finished ++ t)
                (sym (start_fresh gate s.accepting s.limits.chunk_bytes op f.0 h));
      })
