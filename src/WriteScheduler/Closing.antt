-- ===== src/WriteScheduler/Closing.antt =====
-- The end of an operation, `shutdown` and its grace period (src/lib/serial-write-scheduler.ts) keep the scheduler valid.
use bbcom.Base.{
  ℕ, ◌+◌, ◌-◌, ◌≡◌, refl, sym, ap, ◌∙◌, subst, Bool, true, false, not, ◌&&◌, Option, none, some,
  List, [], ◌∷◌, arith, if◌then◌else◌, length,
}
use bbcom.WriteScheduler.{
  SendResult, WriteOperation, is_settled, Drain, resting, writing, returned, Scheduler, active_of,
  Gate, cancelled_after, settle, settle_account, resume, cancel_queued, await_active, shutdown,
  settle_active, is_waited_for, expire, wait_for_idle, is_idle,
}
use bbcom.WriteScheduler.Accounting.{
  Reports, ReportsAny, NoneLate, IsSound, open_ops_of, open_bytes_of, active_ops, active_bytes,
  queued_bytes, AllFresh, Stands, RestsEmpty, IsValid,
}
use bbcom.WriteScheduler.Steps.{
  StandsAt, stands-IsValid, keep-IsValid, if-IsValid, take_next-IsValid,
  resolve_idle_waiters-IsValid, cancelled_after-Reports,
}
use bbcom.WriteScheduler.Events.{unsettled_of}

settled_ops : (o : Option SendResult) → is_settled o ≡ true → open_ops_of o ≡ 0
settled_ops none e = cc
settled_ops (some r) e = refl

settled_bytes :
    (op : WriteOperation) (o : Option SendResult) → is_settled o ≡ true → open_bytes_of op o ≡ 0
settled_bytes op none e = cc
settled_bytes op (some r) e = refl

-- What `settle` does to the counters.
pub record Settled (s : Scheduler) (op : WriteOperation) (t : Scheduler) : Type 0 where
  pub ops : t.outstanding_operations ≡ s.outstanding_operations - open_ops_of op.result
  pub bytes : t.outstanding_bytes ≡ s.outstanding_bytes - open_bytes_of op op.result
  pub limits : t.limits ≡ s.limits
  pub queue : t.queue ≡ s.queue
  pub drain : t.drain ≡ s.drain
  pub finished : t.finished ≡ s.finished
  pub wire : t.wire ≡ s.wire

if-Settled :
    (s : Scheduler) (op : WriteOperation) (b : Bool) (x y : Scheduler)
    → (b ≡ true → Settled s op x)
    → (b ≡ false → Settled s op y)
    → Settled s op (if b then x else y)
if-Settled s op true x y f g = f refl
if-Settled s op false x y f g = g refl

pub settle_account-Settled :
    (s : Scheduler) (op : WriteOperation) → Settled s op (settle_account s op)
unfolding settle_account
settle_account-Settled s op =
    if-Settled s op (is_settled op.result) _ _
      (λ e. record {
        ops = omega (arith, settled_ops op.result e);
        bytes = omega (arith, settled_bytes op op.result e);
        limits = refl;
        queue = refl;
        drain = refl;
        finished = refl;
        wire = refl;
      })
      (λ e. record {
        ops = omega (arith, ap open_ops_of (unsettled_of op.result e));
        bytes = omega (arith, ap (open_bytes_of op) (unsettled_of op.result e));
        limits = refl;
        queue = refl;
        drain = refl;
        finished = refl;
        wire = refl;
      })

pub resume-IsValid :
    (gate : Gate) (d : Drain) (s : Scheduler) → IsValid s → s.drain ≡ d → IsValid (resume gate d s)
unfolding resume
resume-IsValid gate resting s v at = v
resume-IsValid gate (writing op chunk_end) s v at = v
resume-IsValid gate (returned op r) s v at =
    let t = settle_account-Settled s op in
    let ops = v.operations_counted ∙ ap (λ d. active_ops (active_of d) + length s.queue) at in
    let bytes = v.bytes_counted ∙ ap (λ d. active_bytes (active_of d) + queued_bytes s.queue) at in
    take_next-IsValid gate _ s.queue (record {
      operations_counted = omega (arith, t.ops, ops);
      bytes_counted = omega (arith, t.bytes, bytes);
      operations_bounded =
          omega (arith, t.ops, ap (λ l. l.max_operations) t.limits, v.operations_bounded);
      bytes_bounded =
          omega (arith, t.bytes, ap (λ l. l.max_queued_bytes) t.limits, v.bytes_bounded);
      chunk_positive = omega (arith, ap (λ l. l.chunk_bytes) t.limits, v.chunk_positive);
      fresh = v.fresh;
    })

RestsEmpty-shorter :
    (d : Drain) (op : WriteOperation) (ops : List WriteOperation)
    → RestsEmpty d (op ∷ ops)
    → RestsEmpty d ops
RestsEmpty-shorter resting op ops e = cc
RestsEmpty-shorter (writing x chunk_end) op ops e = tt
RestsEmpty-shorter (returned x r) op ops e = tt

RestsEmpty-nil : (d : Drain) → RestsEmpty d []
RestsEmpty-nil resting = refl
RestsEmpty-nil (writing x chunk_end) = tt
RestsEmpty-nil (returned x r) = tt

cancel_queued-IsValid :
    (queue : List WriteOperation) (s : Scheduler)
    → IsValid (record s { queue = queue })
    → IsValid (cancel_queued queue s)
unfolding cancel_queued
cancel_queued-IsValid [] s v = v
cancel_queued-IsValid (op ∷ ops) s v =
    let t = settle_account-Settled s op in
    let f = v.fresh.0 in
    cancel_queued-IsValid ops _ (record {
      operations_counted = omega (
        arith,
        t.ops,
        v.operations_counted,
        ap open_ops_of f.unsettled,
        ap (λ d. active_ops (active_of d)) t.drain,
      );
      bytes_counted = omega (
        arith,
        t.bytes,
        v.bytes_counted,
        ap (open_bytes_of op) f.unsettled,
        f.unsent,
        ap (λ d. active_bytes (active_of d)) t.drain,
      );
      operations_bounded =
          omega (arith, t.ops, ap (λ l. l.max_operations) t.limits, v.operations_bounded);
      bytes_bounded =
          omega (arith, t.bytes, ap (λ l. l.max_queued_bytes) t.limits, v.bytes_bounded);
      chunk_positive = omega (arith, ap (λ l. l.chunk_bytes) t.limits, v.chunk_positive);
      fresh = v.fresh.1;
      standing =
          subst (λ l. Stands l.chunk_bytes (settle_account s op).drain) (sym t.limits)
            (subst (Stands s.limits.chunk_bytes) (sym t.drain) v.standing);
      rests =
          subst (λ d. RestsEmpty d ops) (sym t.drain) (RestsEmpty-shorter s.drain op ops v.rests);
    })

await_active-IsValid :
    (o : Option WriteOperation) (s : Scheduler) → IsValid s → IsValid (await_active o s)
unfolding await_active
await_active-IsValid none s v = v
await_active-IsValid (some op) s v =
    if-IsValid (is_settled op.result) _ _ (λ _. v) (λ _. keep-IsValid s _ _ _ _ _ _ _ v)

pub shutdown-IsValid : (s : Scheduler) → IsValid s → IsValid (shutdown s)
unfolding shutdown
shutdown-IsValid s v = await_active-IsValid (active_of s.drain) _ (
    cancel_queued-IsValid s.queue (record s { accepting = false })
      (keep-IsValid s false _ _ _ _ _ _ v))

-- A report looks at the payload and the sent bytes only.
pub Reports-result :
    (op : WriteOperation) (r : SendResult) (result : Option SendResult)
    → Reports op r
    → Reports (record op { result = result }) r
Reports-result op r result p = record { requested = p.requested; sent = p.sent; says = p.says }

NoneLate-settled :
    (o : Option SendResult) (late : ℕ) (r : SendResult)
    → NoneLate (elim o [ none ↦ some r | some old ↦ some old ]) late
NoneLate-settled none late r = tt
NoneLate-settled (some old) late r = tt

-- `settle` of the active operation, with the result that it is cancelled.
settled_op-IsSound :
    (op : WriteOperation)
    → IsSound op
    → op.result ≡ none
    → IsSound (settle op (cancelled_after (length op.payload) op.sent_bytes))
unfolding settle
settled_op-IsSound op v e = record {
  sent_le = v.sent_le;
  none_late = NoneLate-settled op.result op.late_bytes _;
  reported =
      subst
        (λ o.
          ReportsAny
            (record op {
              result = elim o [
                | none ↦ some (cancelled_after (length op.payload) op.sent_bytes)
                | some r ↦ some r
              ];
            })
            (elim o [
              | none ↦ some (cancelled_after (length op.payload) op.sent_bytes)
              | some r ↦ some r
            ]))
        (sym e)
        (Reports-result op (cancelled_after (length op.payload) op.sent_bytes) _
          (cancelled_after-Reports op v));
}

settle_active-StandsAt :
    (chunk_bytes : ℕ) (d : Drain) (op : WriteOperation)
    → Stands chunk_bytes d
    → active_of d ≡ some op
    → op.result ≡ none
    → StandsAt chunk_bytes
        (settle op (cancelled_after (length op.payload) op.sent_bytes))
        (settle_active d)
unfolding settle
settle_active-StandsAt chunk_bytes resting op s at e = cc
settle_active-StandsAt chunk_bytes (writing x chunk_end) op (v, h, g, k) at e =
    let same : x ≡ op = cc in
    record {
      stands = (settled_op-IsSound x v (ap (λ y. y.result) same ∙ e), h, g, k);
      at = ap (λ y. some (settle y (cancelled_after (length y.payload) y.sent_bytes))) same;
    }
settle_active-StandsAt chunk_bytes (returned x r) op (v, p) at e =
    let same : x ≡ op = cc in
    record {
      stands = (settled_op-IsSound x v (ap (λ y. y.result) same ∙ e), Reports-result x r _ p);
      at = ap (λ y. some (settle y (cancelled_after (length y.payload) y.sent_bytes))) same;
    }

settled_result :
    (op : WriteOperation) (o : Option SendResult) (r : SendResult)
    → (open_ops_of (elim o [ none ↦ some r | some old ↦ some old ]) ≡ 0)
      × (open_bytes_of op (elim o [ none ↦ some r | some old ↦ some old ]) ≡ 0)
settled_result op none r = (refl, refl)
settled_result op (some old) r = (refl, refl)

settled_open :
    (op : WriteOperation) (r : SendResult)
    → (open_ops_of (settle op r).result ≡ 0)
      × (open_bytes_of (settle op r) (settle op r).result ≡ 0)
unfolding settle
settled_open op r = settled_result (settle op r) op.result r

expire_active-IsValid :
    (s : Scheduler) (op : WriteOperation)
    → IsValid s
    → active_of s.drain ≡ some op
    → op.result ≡ none
    → IsValid (record (settle_account s op) { drain = settle_active s.drain })
expire_active-IsValid s op v at open_op =
    let t = settle_account-Settled s op in
    let closed = settled_open op (cancelled_after (length op.payload) op.sent_bytes) in
    let ops = v.operations_counted ∙ ap (λ o. active_ops o + length s.queue) at in
    let bytes = v.bytes_counted ∙ ap (λ o. active_bytes o + queued_bytes s.queue) at in
    stands-IsValid _ (settle op (cancelled_after (length op.payload) op.sent_bytes))
      (subst
        (λ l.
          StandsAt l.chunk_bytes (settle op (cancelled_after (length op.payload) op.sent_bytes))
            (settle_active s.drain))
        (sym t.limits)
        (settle_active-StandsAt s.limits.chunk_bytes s.drain op v.standing at open_op))
      (omega (arith, t.ops, ops, closed.0, ap length t.queue))
      (omega (arith, t.bytes, bytes, closed.1, ap queued_bytes t.queue))
      (omega (arith, t.ops, ap (λ l. l.max_operations) t.limits, v.operations_bounded))
      (omega (arith, t.bytes, ap (λ l. l.max_queued_bytes) t.limits, v.bytes_bounded))
      (omega (arith, ap (λ l. l.chunk_bytes) t.limits, v.chunk_positive))
      (subst AllFresh (sym t.queue) v.fresh)

pub expire-IsValid :
    (o : Option WriteOperation) (s : Scheduler)
    → IsValid s
    → active_of s.drain ≡ o
    → IsValid (expire o s)
unfolding expire
expire-IsValid none s v at = v
expire-IsValid (some op) s v at =
    if-IsValid (is_waited_for op.id s.closing && not (is_settled op.result)) _ _
      (λ open_op.
        expire_active-IsValid s op v at (unsettled_of op.result (ground (arith, open_op))))
      (λ _. v)

pub wait_for_idle-IsValid : (s : Scheduler) → IsValid s → IsValid (wait_for_idle s)
unfolding wait_for_idle
wait_for_idle-IsValid s v =
    if-IsValid (is_idle s) _ _ (λ _. keep-IsValid s _ _ _ _ _ _ _ v)
      (λ _. resolve_idle_waiters-IsValid _ (keep-IsValid s _ _ _ _ _ _ _ v))
