-- ===== src/WriteScheduler/Steps.antt =====
-- Every event keeps the write scheduler (src/lib/serial-write-scheduler.ts) valid.
use bbcom.Base.{
  ℕ, ◌+◌, ◌≤◌, ◌<◌, ◌≡◌, inl, inr, refl, sym, ap, ◌∙◌, subst, min, Bool, true, false, not, ◌||◌,
  some, List, [], ◌∷◌, arith, ltb, ◌==◌, if◌then◌else◌, length, Bool-cases,
}
use bbcom.WriteScheduler.{
  Bytes, SendResult, WriteOperation, is_settled, Drain, resting, writing, returned, Scheduler,
  active_of, Gate, authorized, write_failure, cancelled_after, denied, completed, write_chunk,
  next_chunk, start_operation, take_next, is_idle, resolve_idle_waiters,
}
use bbcom.WriteScheduler.Accounting.{
  Reports, ReportsAny, NoneLate, IsSound, IsFresh, open_ops_of, open_bytes_of, active_ops,
  active_bytes, queued_bytes, AllFresh, Stands, RestsEmpty, IsValid,
}

pub cancelled_after-Reports :
    (op : WriteOperation)
    → IsSound op
    → Reports op (cancelled_after (length op.payload) op.sent_bytes)
unfolding cancelled_after
cancelled_after-Reports op v = record { requested = refl; sent = refl; says = v.sent_le }

pub write_failure-Reports :
    (op : WriteOperation) → Reports op (write_failure (length op.payload) op.sent_bytes)
unfolding write_failure
write_failure-Reports op = elim (Bool-cases (ltb 0 op.sent_bytes)) [
  | inl some_sent ↦ record { requested = refl; sent = refl; says = rw some_sent (ground arith) }
  | inr none_sent ↦ record { requested = refl; sent = refl; says = rw none_sent (ground arith) }
]

denied-Reports : (op : WriteOperation) → Reports op (denied (length op.payload) op.sent_bytes)
unfolding denied
denied-Reports op = elim (Bool-cases (ltb 0 op.sent_bytes)) [
  | inl some_sent ↦ record { requested = refl; sent = refl; says = rw some_sent (ground arith) }
  | inr none_sent ↦ record { requested = refl; sent = refl; says = rw none_sent (ground arith) }
]

completed-Reports :
    (op : WriteOperation)
    → op.sent_bytes ≡ length op.payload
    → Reports op (completed (length op.payload))
unfolding completed
completed-Reports op e = record { requested = refl; sent = sym e; says = (refl, refl) }

-- The coroutine stands right, and at this operation.
pub record StandsAt (chunk_bytes : ℕ) (op : WriteOperation) (d : Drain) : Type 0 where
  pub stands : Stands chunk_bytes d
  pub at : active_of d ≡ some op

pub if-StandsAt :
    (chunk_bytes : ℕ) (op : WriteOperation) (b : Bool) (x y : Drain)
    → (b ≡ true → StandsAt chunk_bytes op x)
    → (b ≡ false → StandsAt chunk_bytes op y)
    → StandsAt chunk_bytes op (if b then x else y)
if-StandsAt chunk_bytes op true x y f g = f refl
if-StandsAt chunk_bytes op false x y f g = g refl

pub returned-StandsAt :
    (chunk_bytes : ℕ) (op : WriteOperation) (r : SendResult)
    → IsSound op
    → Reports op r
    → StandsAt chunk_bytes op (returned op r)
returned-StandsAt chunk_bytes op r v p = record { stands = (v, p); at = refl }

writing-StandsAt :
    (chunk_bytes : ℕ) (op : WriteOperation) (chunk_end : ℕ)
    → IsSound op
    → op.sent_bytes < chunk_end
    → chunk_end ≤ length op.payload
    → chunk_end ≤ op.sent_bytes + chunk_bytes
    → StandsAt chunk_bytes op (writing op chunk_end)
writing-StandsAt chunk_bytes op chunk_end v h g k = record { stands = (v, h, g, k); at = refl }

module _ (chunk_bytes : ℕ) (gate : Gate) (accepting : Bool) (op : WriteOperation)
    (v : IsSound op) where
  pub write_chunk-StandsAt :
      (chunk_end : ℕ)
      → op.sent_bytes < chunk_end
      → chunk_end ≤ length op.payload
      → chunk_end ≤ op.sent_bytes + chunk_bytes
      → StandsAt chunk_bytes op (write_chunk gate accepting op chunk_end)
  unfolding write_chunk
  write_chunk-StandsAt chunk_end h g k =
      if-StandsAt chunk_bytes op (is_settled op.result || not accepting) _ _
        (λ _. returned-StandsAt chunk_bytes op _ v (cancelled_after-Reports op v))
        (λ _.
          if-StandsAt chunk_bytes op (authorized gate op.admission) _ _
            (λ _. writing-StandsAt chunk_bytes op chunk_end v h g k)
            (λ _. returned-StandsAt chunk_bytes op _ v (denied-Reports op)))

  pub next_chunk-StandsAt :
      1 ≤ chunk_bytes → StandsAt chunk_bytes op (next_chunk gate accepting chunk_bytes op)
  unfolding next_chunk
  next_chunk-StandsAt h =
      if-StandsAt chunk_bytes op (ltb op.sent_bytes (length op.payload)) _ _
        (λ more.
          if-StandsAt chunk_bytes op accepting _ _
            (λ _.
              write_chunk-StandsAt (min (op.sent_bytes + chunk_bytes) (length op.payload))
                (ground (arith, more)) (omega arith) (omega arith))
            (λ _. returned-StandsAt chunk_bytes op _ v (cancelled_after-Reports op v)))
        (λ _.
          if-StandsAt chunk_bytes op (op.sent_bytes == length op.payload) _ _
            (λ all.
              returned-StandsAt chunk_bytes op _ v (completed-Reports op (ground (arith, all))))
            (λ _. returned-StandsAt chunk_bytes op _ v (write_failure-Reports op)))

  pub start_operation-StandsAt :
      op.sent_bytes ≡ 0
      → 1 ≤ chunk_bytes
      → StandsAt chunk_bytes op (start_operation gate accepting chunk_bytes op)
  unfolding start_operation
  start_operation-StandsAt e h =
      if-StandsAt chunk_bytes op (authorized gate op.admission) _ _
        (λ _.
          if-StandsAt chunk_bytes op op.start_throws _ _
            (λ _. returned-StandsAt chunk_bytes op _ v (
              subst (λ n. Reports op (write_failure (length op.payload) n)) e
                (write_failure-Reports op)))
            (λ _. next_chunk-StandsAt h))
        (λ _. returned-StandsAt chunk_bytes op _ v (denied-Reports op))

pub RestsEmpty-active :
    (d : Drain) (op : WriteOperation) (queue : List WriteOperation)
    → active_of d ≡ some op
    → RestsEmpty d queue
RestsEmpty-active resting op queue e = cc
RestsEmpty-active (writing x chunk_end) op queue e = tt
RestsEmpty-active (returned x r) op queue e = tt

pub fresh-IsSound : (op : WriteOperation) → IsFresh op → IsSound op
fresh-IsSound op f = record {
  sent_le = omega (arith, f.unsent);
  reported = subst (ReportsAny op) (sym f.unsettled) tt;
  none_late = subst (λ o. NoneLate o op.late_bytes) (sym f.unsettled) f.unanswered;
}

fresh_ops : (op : WriteOperation) → IsFresh op → open_ops_of op.result ≡ 1
fresh_ops op f = ap open_ops_of f.unsettled

fresh_bytes : (op : WriteOperation) → IsFresh op → open_bytes_of op op.result ≡ length op.payload
fresh_bytes op f = ap (open_bytes_of op) f.unsettled ∙ omega (arith, f.unsent)

-- A state that stands at an operation is valid when the counters are right.
pub stands-IsValid :
    (s : Scheduler) (op : WriteOperation)
    → StandsAt s.limits.chunk_bytes op s.drain
    → s.outstanding_operations ≡ open_ops_of op.result + length s.queue
    → s.outstanding_bytes ≡ open_bytes_of op op.result + queued_bytes s.queue
    → s.outstanding_operations ≤ s.limits.max_operations
    → s.outstanding_bytes ≤ s.limits.max_queued_bytes
    → 1 ≤ s.limits.chunk_bytes
    → AllFresh s.queue
    → IsValid s
stands-IsValid s op d ops bytes ops_le bytes_le chunk fresh = record {
  operations_counted = ops ∙ ap (λ o. active_ops o + length s.queue) (sym d.at);
  bytes_counted = bytes ∙ ap (λ o. active_bytes o + queued_bytes s.queue) (sym d.at);
  operations_bounded = ops_le;
  bytes_bounded = bytes_le;
  chunk_positive = chunk;
  fresh = fresh;
  standing = d.stands;
  rests = RestsEmpty-active s.drain op s.queue d.at;
}

-- Between two operations: the queue holds all that is open.
pub record IsBetween (s : Scheduler) (queue : List WriteOperation) : Type 0 where
  pub operations_counted : s.outstanding_operations ≡ length queue
  pub bytes_counted : s.outstanding_bytes ≡ queued_bytes queue
  pub operations_bounded : s.outstanding_operations ≤ s.limits.max_operations
  pub bytes_bounded : s.outstanding_bytes ≤ s.limits.max_queued_bytes
  pub chunk_positive : 1 ≤ s.limits.chunk_bytes
  pub fresh : AllFresh queue

pub if-IsValid :
    (b : Bool) (x y : Scheduler)
    → (b ≡ true → IsValid x)
    → (b ≡ false → IsValid y)
    → IsValid (if b then x else y)
if-IsValid true x y f g = f refl
if-IsValid false x y f g = g refl

-- The other fields are no part of what is valid.
pub keep-IsValid :
    (s : Scheduler) (accepting : Bool) (idle_waiters waiters_told : ℕ) (closing : List ℕ)
    (next_id : ℕ) (finished : List WriteOperation) (wire : Bytes)
    → IsValid s
    → IsValid (record s {
      accepting = accepting;
      idle_waiters = idle_waiters;
      waiters_told = waiters_told;
      closing = closing;
      next_id = next_id;
      finished = finished;
      wire = wire;
    })
keep-IsValid s accepting idle_waiters waiters_told closing next_id finished wire v = record {
  operations_counted = v.operations_counted;
  bytes_counted = v.bytes_counted;
  operations_bounded = v.operations_bounded;
  bytes_bounded = v.bytes_bounded;
  chunk_positive = v.chunk_positive;
  fresh = v.fresh;
  standing = v.standing;
  rests = v.rests;
}

pub resolve_idle_waiters-IsValid : (s : Scheduler) → IsValid s → IsValid (resolve_idle_waiters s)
unfolding resolve_idle_waiters
resolve_idle_waiters-IsValid s v =
    if-IsValid (is_idle s) _ _ (λ _. keep-IsValid s _ _ _ _ _ _ _ v) (λ _. v)

pub take_next-IsValid :
    (gate : Gate) (s : Scheduler) (queue : List WriteOperation)
    → IsBetween s queue
    → IsValid (take_next gate s queue)
unfolding take_next
take_next-IsValid gate s [] b =
    resolve_idle_waiters-IsValid (record s { queue = []; drain = resting })
      (record {
        operations_counted = b.operations_counted ∙ omega arith;
        bytes_counted = b.bytes_counted ∙ omega arith;
        operations_bounded = b.operations_bounded;
        bytes_bounded = b.bytes_bounded;
        chunk_positive = b.chunk_positive;
        fresh = tt;
        standing = tt;
        rests = refl;
      })
take_next-IsValid gate s (op ∷ ops) b =
    let (f, fs) = b.fresh in
    let d =
      start_operation-StandsAt s.limits.chunk_bytes gate s.accepting op (fresh-IsSound op f)
        f.unsent b.chunk_positive in
    if-IsValid (is_settled op.result) _ _ (λ settled. absurd (ground (arith, settled, f.unsettled)))
      (λ _.
        stands-IsValid _ op d (b.operations_counted ∙ omega (arith, fresh_ops op f))
          (b.bytes_counted ∙ omega (arith, fresh_bytes op f)) b.operations_bounded b.bytes_bounded
          b.chunk_positive fs)
