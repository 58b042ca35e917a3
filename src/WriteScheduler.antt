-- ===== src/WriteScheduler.antt =====
-- src/lib/serial-write-scheduler.ts: the queue of all writes of a connection.
-- The class is a state, and what can happen to it is an event: a call, the answer of the driver, the
-- continuation of `drain` after `writeOperation` has returned, or the end of a grace period. Between two
-- events the coroutine `drain` rests or stands at one of its two awaits. The authorization of an
-- event is an argument: the gate and what it answers then. The operation at which `drain` stands is
-- `activeOperation`; an operation that has left the queue and `drain` is kept with the result of its
-- promise. A callback that calls the scheduler back is not modelled.
pub mod Accounting
pub mod Steps
pub mod Events
pub mod Closing
pub mod History
pub mod Recorded
pub mod Wire
pub mod Progress
mod Answers
mod Tests
use bbcom.Base.{
  ℕ, zero, suc, ◌+◌, ◌-◌, ◌≤◌, min, Bool, true, false, not, ◌&&◌, ◌||◌, Option, none, some, List,
  [], ◌∷◌, ◌++◌, Result, ok, err, ltb, leb, ◌==◌, if◌then◌else◌, length, take, drop,
}
use bbcom.Base.Number.{Number, is_integer, at_most, above, below, to_ℕ, finite}
use bbcom.Base.Text.{Text}

abbrev pub Bytes : Type 0
Bytes = List ℕ

pub data Outcome : Type 0 where
  complete partial failed cancelled : Outcome

pub data ErrorCode : Type 0 where
  invalid_input serial_queue_full serial_partial_write cancelled_error security_denied : ErrorCode

pub record SendError : Type 0 where
  pub code : ErrorCode
  pub retryable : Bool

pub record SendResult : Type 0 where
  pub outcome : Outcome
  pub requested_bytes : ℕ
  pub sent_bytes : ℕ
  pub error : Option SendError

unfoldable pub failed_with : ℕ → SendError → SendResult
failed_with requested e = record {
  outcome = failed;
  requested_bytes = requested;
  sent_bytes = 0;
  error = some e;
}

unfoldable pub write_failure : ℕ → ℕ → SendResult
write_failure requested sent = record {
  outcome = if ltb 0 sent then partial else failed;
  requested_bytes = requested;
  sent_bytes = sent;
  error = some (record { code = serial_partial_write; retryable = false });
}

unfoldable pub cancelled_after : ℕ → ℕ → SendResult
cancelled_after requested sent = record {
  outcome = cancelled;
  requested_bytes = requested;
  sent_bytes = sent;
  error = some (record { code = cancelled_error; retryable = false });
}

unfoldable pub denied : ℕ → ℕ → SendResult
denied requested sent = record {
  outcome = if ltb 0 sent then partial else failed;
  requested_bytes = requested;
  sent_bytes = sent;
  error = some (record { code = security_denied; retryable = false });
}

unfoldable pub completed : ℕ → SendResult
completed requested = record {
  outcome = complete;
  requested_bytes = requested;
  sent_bytes = requested;
  error = none;
}

-- `start_throws` is what the callback `onWriteStarted` does; the result is that of the promise.
-- `late_bytes` is a record of what the driver acknowledged after the promise was resolved.
pub record WriteOperation : Type 0 where
  pub id : ℕ
  pub payload : Bytes
  pub admission : Option Text
  pub start_throws : Bool
  pub sent_bytes : ℕ
  pub late_bytes : ℕ
  pub result : Option SendResult

abbrev pub is_settled : Option SendResult → Bool
is_settled none = false
is_settled (some r) = true

-- The gate, if there is one, and its answers: `none` where `authorize` throws.
abbrev pub Gate : Type 0
Gate = Option (Text → Option Bool)

unfoldable pub authorized : Gate → Option Text → Bool
authorized none admission = true
authorized (some authorize) none = false
authorized (some authorize) (some a) = elim (authorize a) [ none ↦ false | some answer ↦ answer ]

-- Where the coroutine stands: at the call of the driver for the bytes up to a chunk's end, or behind the
-- return of `writeOperation`.
pub data Drain : Type 0 where
  resting : Drain
  writing : (op : WriteOperation) (chunk_end : ℕ) → Drain
  returned : (op : WriteOperation) (result : SendResult) → Drain

pub record Limits : Type 0 where
  pub max_operations : ℕ
  pub max_queued_bytes : ℕ
  pub chunk_bytes : ℕ

pub record Scheduler : Type 0 where
  pub limits : Limits
  pub queue : List WriteOperation
  pub drain : Drain
  pub accepting : Bool
  pub outstanding_operations : ℕ
  pub outstanding_bytes : ℕ
  pub idle_waiters : ℕ
  pub waiters_told : ℕ
  pub closing : List ℕ
  pub next_id : ℕ
  pub finished : List WriteOperation
  pub wire : Bytes

-- The constructor, of limits that are positive integers.
unfoldable pub new_scheduler : Limits → Option Scheduler
new_scheduler limits =
    if leb limits.max_operations 0 || leb limits.max_queued_bytes 0 || leb limits.chunk_bytes 0
    then none
    else some (record {
      limits = limits;
      queue = [];
      drain = resting;
      accepting = true;
      outstanding_operations = 0;
      outstanding_bytes = 0;
      idle_waiters = 0;
      waiters_told = 0;
      closing = [];
      next_id = 0;
      finished = [];
      wire = [];
    })

-- `settle` of an operation: its promise, and the counters of the scheduler.
unfoldable pub settle : WriteOperation → SendResult → WriteOperation
settle op r = record op { result = elim op.result [ none ↦ some r | some old ↦ some old ] }

unfoldable pub settle_account : Scheduler → WriteOperation → Scheduler
settle_account s op = if is_settled op.result then s else record s {
  outstanding_bytes = s.outstanding_bytes - (length op.payload - op.sent_bytes);
  outstanding_operations = s.outstanding_operations - 1;
}

-- The inner loop up to the call of the driver.
unfoldable pub write_chunk : Gate → Bool → WriteOperation → ℕ → Drain
unfolding authorized
write_chunk gate accepting op chunk_end =
    if is_settled op.result || not accepting
    then returned op (cancelled_after (length op.payload) op.sent_bytes)
    else (if authorized gate op.admission
        then writing op chunk_end
        else returned op (denied (length op.payload) op.sent_bytes))

-- The outer loop from its test on.
unfoldable pub next_chunk : Gate → Bool → ℕ → WriteOperation → Drain
unfolding write_chunk
next_chunk gate accepting chunk_bytes op =
    if ltb op.sent_bytes (length op.payload)
    then (if accepting
        then write_chunk gate accepting op (min (op.sent_bytes + chunk_bytes) (length op.payload))
        else returned op (cancelled_after (length op.payload) op.sent_bytes))
    else (if op.sent_bytes == length op.payload
        then returned op (completed (length op.payload))
        else returned op (write_failure (length op.payload) op.sent_bytes))

-- `writeOperation` up to its first await.
unfoldable pub start_operation : Gate → Bool → ℕ → WriteOperation → Drain
unfolding next_chunk authorized
start_operation gate accepting chunk_bytes op =
    if authorized gate op.admission
    then (if op.start_throws
        then returned op (write_failure (length op.payload) 0)
        else next_chunk gate accepting chunk_bytes op)
    else returned op (denied (length op.payload) op.sent_bytes)

abbrev pub is_resting : Drain → Bool
is_resting resting = true
is_resting (writing op chunk_end) = false
is_resting (returned op result) = false

abbrev is_empty : List WriteOperation → Bool
is_empty [] = true
is_empty (op ∷ ops) = false

unfoldable pub is_idle : Scheduler → Bool
is_idle s = is_empty s.queue && is_resting s.drain

unfoldable pub resolve_idle_waiters : Scheduler → Scheduler
unfolding is_idle
resolve_idle_waiters s =
    if is_idle s
    then record s { idle_waiters = 0; waiters_told = s.waiters_told + s.idle_waiters }
    else s

-- The loop of `drain` over the queue, up to the next await or to its end.
unfoldable pub take_next : Gate → Scheduler → List WriteOperation → Scheduler
unfolding start_operation resolve_idle_waiters
take_next gate s [] = resolve_idle_waiters (record s { queue = []; drain = resting })
take_next gate s (op ∷ ops) =
    let skip = take_next gate (record s { finished = s.finished ++ op ∷ [] }) ops in
    if is_settled op.result
    then skip
    else record s { queue = ops; drain = start_operation gate s.accepting s.limits.chunk_bytes op }

unfoldable pub start_drain : Gate → Scheduler → Scheduler
unfolding take_next
start_drain gate s = if is_resting s.drain then take_next gate s s.queue else s

-- The answer of `enqueue`: a result at once, or the promise of an operation.
pub data Answer : Type 0 where
  at_once : SendResult → Answer
  promised : ℕ → Answer

unfoldable pub admit : Gate → Bytes → Option Text → Bool → Scheduler → Scheduler
unfolding start_drain
admit gate payload admission start_throws s = start_drain gate (record s {
  queue =
      s.queue
      ++ record {
        id = s.next_id;
        payload = payload;
        admission = admission;
        start_throws = start_throws;
        sent_bytes = 0;
        late_bytes = 0;
        result = none;
      }
        ∷ [];
  outstanding_operations = s.outstanding_operations + 1;
  outstanding_bytes = s.outstanding_bytes + length payload;
  next_id = s.next_id + 1;
})

unfoldable pub enqueue : Gate → Bytes → Option Text → Bool → Scheduler → Answer × Scheduler
unfolding authorized admit
enqueue gate payload admission start_throws s =
    if length payload == 0
    then (at_once (failed_with 0 (record { code = invalid_input; retryable = false })), s)
    else (if not s.accepting
        then (at_once (cancelled_after (length payload) 0), s)
        else (if not (authorized gate admission)
            then (at_once (denied (length payload) 0), s)
            else (if leb s.limits.max_operations s.outstanding_operations
                  || ltb s.limits.max_queued_bytes (s.outstanding_bytes + length payload)
                then (
                  at_once (
                      failed_with (length payload)
                        (record { code = serial_queue_full; retryable = true })),
                  s,
                )
                else (promised s.next_id, admit gate payload admission start_throws s))))

-- What the driver's promise comes to: a number that it resolves to, or a rejection.
pub data DriverAnswer : Type 0 where
  wrote : Number → DriverAnswer
  threw : DriverAnswer

abbrev pub stopped : Bool → WriteOperation → SendResult
stopped accepting op =
    if accepting
    then write_failure (length op.payload) op.sent_bytes
    else cancelled_after (length op.payload) op.sent_bytes

-- `Number.isInteger(written) && written > 0 && written <= chunk.length`, with the number.
unfoldable pub progress_of : Number → ℕ → Option ℕ
progress_of (finite n fraction) chunk =
    if fraction || leb (to_ℕ n) 0 || ltb chunk (to_ℕ n) then none else some (to_ℕ n)
progress_of _ chunk = none

-- The rest of the loops behind a write of `written` bytes.
unfoldable pub continue_write : Gate → Bool → ℕ → WriteOperation → ℕ → Drain
unfolding write_chunk next_chunk
continue_write gate accepting chunk_bytes op chunk_end =
    if not accepting
    then returned op (cancelled_after (length op.payload) op.sent_bytes)
    else (if ltb op.sent_bytes chunk_end
        then write_chunk gate accepting op chunk_end
        else next_chunk gate accepting chunk_bytes op)

unfoldable pub driver_wrote : Gate → WriteOperation → ℕ → Option ℕ → Scheduler → Scheduler
unfolding continue_write
driver_wrote gate op chunk_end none s = record s { drain = returned op (stopped s.accepting op) }
driver_wrote gate op chunk_end (some written) s =
    let op' = record op { sent_bytes = op.sent_bytes + written } in
    record s {
      drain = continue_write gate s.accepting s.limits.chunk_bytes op' chunk_end;
      outstanding_bytes = s.outstanding_bytes - written;
      wire = s.wire ++ take written (drop op.sent_bytes op.payload);
    }

-- The answer to a call whose operation has been settled meanwhile: the code ignores it.
unfoldable pub driver_late : WriteOperation → Option ℕ → Scheduler → Scheduler
driver_late op none s = record s {
  drain = returned op (cancelled_after (length op.payload) op.sent_bytes);
}
driver_late op (some written) s = record s {
  drain =
      returned (record op { late_bytes = op.late_bytes + written })
        (cancelled_after (length op.payload) op.sent_bytes);
  wire = s.wire ++ take written (drop (op.sent_bytes + op.late_bytes) op.payload);
}

unfoldable pub driver_settled : Gate → WriteOperation → ℕ → DriverAnswer → Scheduler → Scheduler
unfolding progress_of driver_late driver_wrote
driver_settled gate op chunk_end threw s = record s { drain = returned op (stopped s.accepting op) }
driver_settled gate op chunk_end (wrote n) s =
    if is_settled op.result
    then driver_late op (progress_of n (chunk_end - op.sent_bytes)) s
    else driver_wrote gate op chunk_end (progress_of n (chunk_end - op.sent_bytes)) s

unfoldable pub driver_answers : Gate → DriverAnswer → Drain → Scheduler → Scheduler
unfolding driver_settled
driver_answers gate answer (writing op chunk_end) s = driver_settled gate op chunk_end answer s
driver_answers gate answer resting s = s
driver_answers gate answer (returned op result) s = s

-- `drain` behind the await of `writeOperation`.
unfoldable pub resume : Gate → Drain → Scheduler → Scheduler
unfolding settle settle_account take_next
resume gate (returned op result) s =
    let s' = settle_account s op in
    take_next gate (record s' { finished = s'.finished ++ settle op result ∷ [] }) s.queue
resume gate resting s = s
resume gate (writing op chunk_end) s = s

-- The loop of `shutdown` over the queue.
unfoldable pub cancel_queued : List WriteOperation → Scheduler → Scheduler
unfolding settle settle_account
cancel_queued [] s = record s { queue = [] }
cancel_queued (op ∷ ops) s =
    let s' = settle_account s op in
    cancel_queued ops (record s' {
      finished = s'.finished ++ settle op (cancelled_after (length op.payload) 0) ∷ [];
    })

-- The operation that `drain` stands at.
abbrev pub active_of : Drain → Option WriteOperation
active_of resting = none
active_of (writing op chunk_end) = some op
active_of (returned op result) = some op

-- The part of `shutdown` behind the loop: it waits for the active operation unless that is settled.
unfoldable pub await_active : Option WriteOperation → Scheduler → Scheduler
await_active none s = s
await_active (some op) s =
    if is_settled op.result then s else record s { closing = op.id ∷ s.closing }

unfoldable pub shutdown : Scheduler → Scheduler
unfolding cancel_queued await_active
shutdown s =
    await_active (active_of s.drain) (cancel_queued s.queue (record s { accepting = false }))

abbrev settle_active : Drain → Drain
settle_active resting = resting
settle_active (writing op chunk_end) =
    writing (settle op (cancelled_after (length op.payload) op.sent_bytes)) chunk_end
settle_active (returned op result) =
    returned (settle op (cancelled_after (length op.payload) op.sent_bytes)) result

unfoldable pub is_waited_for : ℕ → List ℕ → Bool
is_waited_for id [] = false
is_waited_for id (i ∷ ids) = (id == i) || is_waited_for id ids

-- The grace period of the `shutdown` calls is over.
unfoldable pub expire : Option WriteOperation → Scheduler → Scheduler
unfolding settle settle_account is_waited_for
expire none s = s
expire (some op) s =
    if is_waited_for op.id s.closing && not (is_settled op.result)
    then record (settle_account s op) { drain = settle_active s.drain }
    else s

unfoldable pub wait_for_idle : Scheduler → Scheduler
unfolding is_idle resolve_idle_waiters
wait_for_idle s =
    if is_idle s
    then record s { waiters_told = s.waiters_told + 1 }
    else resolve_idle_waiters (record s { idle_waiters = s.idle_waiters + 1 })

pub data Event : Type 0 where
  enqueued : (payload : Bytes) (admission : Option Text) (start_throws : Bool) → Event
  driver : DriverAnswer → Event
  continued : Event
  shut_down : Event
  grace_over : Event
  idle_awaited : Event
  wait_aborted : Event

unfoldable pub step : Gate → Event → Scheduler → Scheduler
unfolding enqueue driver_answers resume shutdown expire wait_for_idle
step gate (enqueued payload admission start_throws) s =
    (enqueue gate payload admission start_throws s).1
step gate (driver answer) s = driver_answers gate answer s.drain s
step gate continued s = resume gate s.drain s
step gate shut_down s = shutdown s
step gate grace_over s = record (expire (active_of s.drain) s) { closing = [] }
step gate idle_awaited s = wait_for_idle s
step gate wait_aborted s = record s { idle_waiters = s.idle_waiters - 1 }

-- A history: each event comes with the gate's answers at that time.
unfoldable pub run : List (Gate × Event) → Scheduler → Scheduler
unfolding step
run [] s = s
run ((gate, e) ∷ events) s = run events (step gate e s)
