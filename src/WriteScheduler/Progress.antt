-- ===== src/WriteScheduler/Progress.antt =====
-- The write scheduler (src/lib/serial-write-scheduler.ts) comes to rest when the driver answers.
use bbcom.Base.{
  ℕ, ◌+◌, ◌-◌, ◌*◌, ◌≤◌, ◌<◌, ◌≡◌, refl, sym, ap, ap₂, subst, ◌∙◌, min, Bool, true, not, ◌||◌,
  Option, none, some, List, [], ◌∷◌, ◌++◌, arith, ltb, ◌==◌, length,
}
use bbcom.Base.Sort.{if-both}
use bbcom.WriteScheduler.{
  WriteOperation, is_settled, Drain, resting, writing, returned, Scheduler, active_of, Gate,
  authorized, write_chunk, next_chunk, start_operation, take_next, is_idle, resolve_idle_waiters,
  DriverAnswer, wrote, threw, progress_of, continue_write, driver_wrote, driver_late,
  driver_settled, driver_answers, resume, settle, settle_account, Event, driver, continued, step,
  run, Limits, new_scheduler,
}
use bbcom.WriteScheduler.Accounting.{
  Stands, RestsEmpty, IsValid, active_ops, active_bytes, queued_bytes,
}
use bbcom.WriteScheduler.Events.{progress_of-bounds}
use bbcom.WriteScheduler.History.{step-IsValid, run-IsValid, new_scheduler-IsValid}

-- A bound on the answers and turns that the coroutine still waits for at its operation, and for the queue.
abbrev pub drain_load : Drain → ℕ
drain_load resting = 0
drain_load (writing op chunk_end) = 2 * (length op.payload - op.sent_bytes) + 2
drain_load (returned op result) = 1

abbrev pub queue_load : List WriteOperation → ℕ
queue_load [] = 0
queue_load (op ∷ ops) = 2 * length op.payload + 3 + queue_load ops

abbrev pub load : Scheduler → ℕ
load s = drain_load s.drain + queue_load s.queue

-- The load of an operation with its payload to send.
abbrev full_load : WriteOperation → ℕ
full_load op = 2 * (length op.payload - op.sent_bytes) + 2

module _ (gate : Gate) (accepting : Bool) (op : WriteOperation) where
  write_chunk-load :
      (chunk_end : ℕ) → drain_load (write_chunk gate accepting op chunk_end) ≤ full_load op
  unfolding write_chunk
  write_chunk-load chunk_end =
      if-both (λ d. drain_load d ≤ full_load op) (is_settled op.result || not accepting) _ _
        (λ _. omega arith)
        (λ _.
          if-both (λ d. drain_load d ≤ full_load op) (authorized gate op.admission) _ _
            (λ _. omega arith) (λ _. omega arith))

  next_chunk-load :
      (chunk_bytes : ℕ) → drain_load (next_chunk gate accepting chunk_bytes op) ≤ full_load op
  unfolding next_chunk
  next_chunk-load chunk_bytes =
      if-both (λ d. drain_load d ≤ full_load op) (ltb op.sent_bytes (length op.payload)) _ _
        (λ _.
          if-both (λ d. drain_load d ≤ full_load op) accepting _ _
            (λ _. write_chunk-load (min (op.sent_bytes + chunk_bytes) (length op.payload)))
            (λ _. omega arith))
        (λ _.
          if-both (λ d. drain_load d ≤ full_load op) (op.sent_bytes == length op.payload) _ _
            (λ _. omega arith) (λ _. omega arith))

  start_operation-load :
      (chunk_bytes : ℕ) → drain_load (start_operation gate accepting chunk_bytes op) ≤ full_load op
  unfolding start_operation
  start_operation-load chunk_bytes =
      if-both (λ d. drain_load d ≤ full_load op) (authorized gate op.admission) _ _
        (λ _.
          if-both (λ d. drain_load d ≤ full_load op) op.start_throws _ _ (λ _. omega arith)
            (λ _. next_chunk-load chunk_bytes))
        (λ _. omega arith)

  continue_write-load :
      (chunk_bytes chunk_end : ℕ)
      → drain_load (continue_write gate accepting chunk_bytes op chunk_end) ≤ full_load op
  unfolding continue_write
  continue_write-load chunk_bytes chunk_end =
      if-both (λ d. drain_load d ≤ full_load op) (not accepting) _ _ (λ _. omega arith)
        (λ _.
          if-both (λ d. drain_load d ≤ full_load op) (ltb op.sent_bytes chunk_end) _ _
            (λ _. write_chunk-load chunk_end) (λ _. next_chunk-load chunk_bytes))

-- Going on with the queue leaves less than the queue stood for.
take_next-load :
    (gate : Gate) (ops : List WriteOperation) (s : Scheduler)
    → load (take_next gate s ops) ≤ queue_load ops
unfolding take_next resolve_idle_waiters
take_next-load gate [] s =
    let rest = record s { queue = []; drain = resting } in
    if-both (λ t. load t ≤ 0) (is_idle rest)
      (record rest { idle_waiters = 0; waiters_told = s.waiters_told + s.idle_waiters }) rest
      (λ _. omega arith) (λ _. omega arith)
take_next-load gate (op ∷ ops) s =
    if-both (λ t. load t ≤ queue_load (op ∷ ops)) (is_settled op.result)
      (take_next gate (record s { finished = s.finished ++ op ∷ [] }) ops)
      (record s { queue = ops; drain = start_operation gate s.accepting s.limits.chunk_bytes op })
      (λ _. omega (arith, take_next-load gate ops (record s { finished = s.finished ++ op ∷ [] })))
      (λ _. omega (arith, start_operation-load gate s.accepting op s.limits.chunk_bytes))

-- Whatever the driver answers, the load of a write gets less.
driver_wrote-load :
    (gate : Gate) (op : WriteOperation) (chunk_end : ℕ) (o : Option ℕ) (s : Scheduler)
    → op.sent_bytes < chunk_end
    → chunk_end ≤ length op.payload
    → ((w : ℕ) → o ≡ some w → (0 < w) × (w ≤ chunk_end - op.sent_bytes))
    → load (driver_wrote gate op chunk_end o s) < full_load op + queue_load s.queue
unfolding driver_wrote
driver_wrote-load gate op chunk_end none s h g f = omega arith
driver_wrote-load gate op chunk_end (some written) s h g f =
    let op' = record op { sent_bytes = op.sent_bytes + written } in
    omega (
      arith,
      continue_write-load gate s.accepting op' s.limits.chunk_bytes chunk_end,
      f written refl,
    )

driver_late-load :
    (op : WriteOperation) (o : Option ℕ) (s : Scheduler)
    → 0 < length op.payload
    → load (driver_late op o s) < full_load op + queue_load s.queue
unfolding driver_late
driver_late-load op none s h = omega arith
driver_late-load op (some written) s h = omega arith

driver_settled-load :
    (gate : Gate) (op : WriteOperation) (chunk_end : ℕ) (answer : DriverAnswer) (s : Scheduler)
    → op.sent_bytes < chunk_end
    → chunk_end ≤ length op.payload
    → load (driver_settled gate op chunk_end answer s) < full_load op + queue_load s.queue
unfolding driver_settled
driver_settled-load gate op chunk_end threw s h g = omega arith
driver_settled-load gate op chunk_end (wrote n) s h g =
    if-both (λ t. load t < full_load op + queue_load s.queue) (is_settled op.result)
      (driver_late op (progress_of n (chunk_end - op.sent_bytes)) s)
      (driver_wrote gate op chunk_end (progress_of n (chunk_end - op.sent_bytes)) s)
      (λ _. driver_late-load op (progress_of n (chunk_end - op.sent_bytes)) s (omega (arith, h, g)))
      (λ _.
        driver_wrote-load gate op chunk_end (progress_of n (chunk_end - op.sent_bytes)) s h g
          λ w e. progress_of-bounds n (chunk_end - op.sent_bytes) w e)

-- The event that the coroutine waits for.
abbrev pub awaited : Drain → DriverAnswer → Event
awaited (writing op chunk_end) answer = driver answer
awaited _ answer = continued

-- The event at a coroutine that stands at `d`, with `at` for its place in the scheduler.
handled : Gate → DriverAnswer → Drain → Drain → Scheduler → Scheduler
handled gate answer (writing op chunk_end) at s = driver_answers gate answer at s
handled gate answer resting at s = resume gate at s
handled gate answer (returned op result) at s = resume gate at s

step-awaited :
    (gate : Gate) (answer : DriverAnswer) (d : Drain) (s : Scheduler)
    → step gate (awaited d answer) s ≡ handled gate answer d s.drain s
unfolding step handled
step-awaited gate answer (writing op chunk_end) s = refl
step-awaited gate answer resting s = refl
step-awaited gate answer (returned op result) s = refl

handled-load :
    (gate : Gate) (answer : DriverAnswer) (d : Drain) (s : Scheduler) (chunk_bytes : ℕ)
    → Stands chunk_bytes d
    → RestsEmpty d s.queue
    → s.drain ≡ d
    → load (handled gate answer d d s) ≤ drain_load d + queue_load s.queue - 1
unfolding handled driver_answers resume
handled-load gate answer resting s k st rests e =
    omega (arith, ap drain_load e, ap queue_load rests)
handled-load gate answer (writing op chunk_end) s k (v, h, g, _) rests e =
    omega (arith, driver_settled-load gate op chunk_end answer s h g)
handled-load gate answer (returned op result) s k st rests e =
    let s' = settle_account s op in
    omega (
      arith,
      take_next-load gate s.queue (record s' { finished = s'.finished ++ settle op result ∷ [] }),
    )

-- Every awaited event takes something off the load.
step-load :
    (gate : Gate) (answer : DriverAnswer) (s : Scheduler)
    → IsValid s
    → load (step gate (awaited s.drain answer) s) ≤ load s - 1
step-load gate answer s v =
    subst (λ t. load t ≤ load s - 1) (sym (step-awaited gate answer s.drain s))
      (handled-load gate answer s.drain s s.limits.chunk_bytes v.standing v.rests refl)

-- The awaited events, one for each pair of the gate and the driver's answer, if it is one that is awaited.
abbrev pub pump : List (Gate × DriverAnswer) → Scheduler → Scheduler
pump [] s = s
pump ((gate, answer) ∷ answers) s = pump answers (step gate (awaited s.drain answer) s)

pump-load :
    (answers : List (Gate × DriverAnswer)) (s : Scheduler)
    → IsValid s
    → IsValid (pump answers s) × (load (pump answers s) ≤ load s - length answers)
pump-load [] s v = (v, omega arith)
pump-load ((gate, answer) ∷ answers) s v =
    let next = step gate (awaited s.drain answer) s in
    let (valid, less) = pump-load answers next (step-IsValid gate (awaited s.drain answer) s v) in
    (valid, omega (arith, less, step-load gate answer s v))

no_load :
    (d : Drain) (queue : List WriteOperation)
    → drain_load d + queue_load queue ≤ 0
    → (d ≡ resting) × (queue ≡ [])
no_load resting [] h = (refl, refl)
no_load resting (op ∷ ops) h = absurd (omega arith)
no_load (writing op chunk_end) queue h = absurd (omega arith)
no_load (returned op result) queue h = absurd (omega arith)

idle_at : (s : Scheduler) → s.drain ≡ resting → s.queue ≡ [] → is_idle s ≡ true
unfolding is_idle
idle_at s d q = rw (d, q) refl

-- After any history of a new scheduler, it comes to rest when the events that it awaits take place, one
-- for each unit of its load: the driver answers whatever it likes and the coroutine is resumed. Then the scheduler
-- is idle and no operation and no byte is outstanding.
pub run-settles :
    (limits : Limits) (s : Scheduler) (events : List (Gate × Event))
    (answers : List (Gate × DriverAnswer))
    → new_scheduler limits ≡ some s
    → load (run events s) ≤ length answers
    → (is_idle (pump answers (run events s)) ≡ true)
      × ((pump answers (run events s)).outstanding_operations ≡ 0)
      × ((pump answers (run events s)).outstanding_bytes ≡ 0)
run-settles limits s events answers created enough =
    let (v, less) =
      pump-load answers (run events s)
        (run-IsValid events s (new_scheduler-IsValid limits s created)) in
    let t = pump answers (run events s) in
    let (rests, empty) = no_load t.drain t.queue (omega (arith, less)) in
    (
      idle_at t rests empty,
      v.operations_counted
          ∙ ap₂ (λ d q. active_ops (active_of d) + length q) rests empty
          ∙ omega arith,
      v.bytes_counted
          ∙ ap₂ (λ d q. active_bytes (active_of d) + queued_bytes q) rests empty
          ∙ omega arith,
    )
