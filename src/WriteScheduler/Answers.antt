-- ===== src/WriteScheduler/Answers.antt =====
-- What `enqueue` of src/lib/serial-write-scheduler.ts answers, and what the promises of a history say.
use bbcom.Base.{
  ℕ, none, [], ◌∷◌, ◌+◌, ◌≤◌, ◌<◌, ◌≡◌, ◌⊎◌, inl, inr, refl, Bool, true, false, not, ◌||◌, Option,
  some, List, ◌++◌, arith, leb, ltb, ◌==◌, length,
}
use bbcom.Base.Sort.{if-both}
use bbcom.Base.Text.{Text}
use bbcom.WriteScheduler.{
  Bytes, Outcome, failed, cancelled, ErrorCode, invalid_input, serial_queue_full, cancelled_error,
  security_denied, SendResult, Limits, Scheduler, active_of, Gate, authorized, Answer, at_once,
  promised, failed_with, cancelled_after, denied, enqueue, Event, run, new_scheduler,
  WriteOperation, Drain, take_next, is_settled, is_idle, resolve_idle_waiters, start_operation,
  is_resting, start_drain, admit, resting, writing, returned,
}
use bbcom.WriteScheduler.Accounting.{ReportsAny, Stands}
use bbcom.WriteScheduler.History.{run-IsValid, new_scheduler-IsValid}
use bbcom.WriteScheduler.Recorded.{AllClosed, sent_by, sent_active}
use bbcom.WriteScheduler.Wire.{run-Recorded, new_scheduler-Recorded}

-- A result that says that nothing of a payload was sent, and why.
abbrev pub Refuses : Bytes → SendResult → Outcome → ErrorCode → Type 0
Refuses payload r outcome code =
    (r.requested_bytes ≡ length payload)
    × (r.sent_bytes ≡ 0)
    × (r.outcome ≡ outcome)
    × ((retryable : Bool) × (r.error ≡ some (record { code = code; retryable = retryable })))

-- There is no place for the payload.
abbrev pub IsFull : Bytes → Scheduler → Type 0
IsFull payload s =
    (s.limits.max_operations ≤ s.outstanding_operations)
    ⊎ (s.limits.max_queued_bytes < s.outstanding_bytes + length payload)

-- One operation more is accounted for, with the bytes of its payload.
abbrev pub TakesOn : Bytes → Scheduler → Scheduler → Type 0
TakesOn payload s t =
    (t.next_id ≡ s.next_id + 1)
    × (t.outstanding_operations ≡ s.outstanding_operations + 1)
    × (t.outstanding_bytes ≡ s.outstanding_bytes + length payload)

-- The answers that are due: a refusal with the reason for it and an unchanged scheduler, or a promise for
-- the next operation, which is taken on, if there is no reason.
pub AnswersDuly : Gate → Bytes → Option Text → Scheduler → Answer × Scheduler → Type 0
AnswersDuly gate payload admission s (at_once r, t) =
    (t ≡ s)
    × ((Refuses payload r failed invalid_input × (length payload ≡ 0))
        ⊎ (Refuses payload r cancelled cancelled_error × (s.accepting ≡ false))
        ⊎ (Refuses payload r failed security_denied × (authorized gate admission ≡ false))
        ⊎ (Refuses payload r failed serial_queue_full × IsFull payload s))
AnswersDuly gate payload admission s (promised id, t) =
    (id ≡ s.next_id)
    × (0 < length payload)
    × (s.accepting ≡ true)
    × (authorized gate admission ≡ true)
    × (s.outstanding_operations < s.limits.max_operations)
    × (s.outstanding_bytes + length payload ≤ s.limits.max_queued_bytes)
    × TakesOn payload s t

-- What the start of an operation leaves.
abbrev KeepsCounts : Scheduler → Scheduler → Type 0
KeepsCounts s t =
    (t.next_id ≡ s.next_id)
    × (t.outstanding_operations ≡ s.outstanding_operations)
    × (t.outstanding_bytes ≡ s.outstanding_bytes)

take_next-KeepsCounts :
    (gate : Gate) (queue : List WriteOperation) (s : Scheduler)
    → KeepsCounts s (take_next gate s queue)
unfolding take_next resolve_idle_waiters
take_next-KeepsCounts gate [] s =
    let rest = record s { queue = []; drain = resting } in
    if-both (KeepsCounts s) (is_idle rest)
      (record rest { idle_waiters = 0; waiters_told = s.waiters_told + s.idle_waiters }) rest
      (λ _. (refl, refl, refl)) (λ _. (refl, refl, refl))
take_next-KeepsCounts gate (op ∷ ops) s =
    if-both (KeepsCounts s) (is_settled op.result)
      (take_next gate (record s { finished = s.finished ++ op ∷ [] }) ops)
      (record s { queue = ops; drain = start_operation gate s.accepting s.limits.chunk_bytes op })
      (λ _. take_next-KeepsCounts gate ops (record s { finished = s.finished ++ op ∷ [] }))
      (λ _. (refl, refl, refl))

start_drain-KeepsCounts : (gate : Gate) (s : Scheduler) → KeepsCounts s (start_drain gate s)
unfolding start_drain
start_drain-KeepsCounts gate s =
    if-both (KeepsCounts s) (is_resting s.drain) (take_next gate s s.queue) s
      (λ _. take_next-KeepsCounts gate s.queue s) (λ _. (refl, refl, refl))

admit-TakesOn :
    (gate : Gate) (payload : Bytes) (admission : Option Text) (start_throws : Bool) (s : Scheduler)
    → TakesOn payload s (admit gate payload admission start_throws s)
unfolding admit
admit-TakesOn gate payload admission start_throws s =
    let op : WriteOperation = record {
      id = s.next_id;
      payload = payload;
      admission = admission;
      start_throws = start_throws;
      sent_bytes = 0;
      late_bytes = 0;
      result = none;
    } in
    start_drain-KeepsCounts gate (record s {
      queue = s.queue ++ op ∷ [];
      outstanding_operations = s.outstanding_operations + 1;
      outstanding_bytes = s.outstanding_bytes + length payload;
      next_id = s.next_id + 1;
    })

enqueue-AnswersDuly :
    (gate : Gate) (payload : Bytes) (admission : Option Text) (start_throws : Bool) (s : Scheduler)
    → AnswersDuly gate payload admission s (enqueue gate payload admission start_throws s)
unfolding enqueue AnswersDuly failed_with cancelled_after denied
enqueue-AnswersDuly gate payload admission start_throws s =
    if-both (AnswersDuly gate payload admission s) (length payload == 0) _ _
      (λ empty. (refl, inl ((ground arith, refl, refl, (false, refl)), ground arith)))
      (λ some_bytes.
        if-both (AnswersDuly gate payload admission s) (not s.accepting) _ _
          (λ closed. (refl, inr (inl ((refl, refl, refl, (false, refl)), ground arith))))
          (λ open_now.
            if-both (AnswersDuly gate payload admission s) (not (authorized gate admission)) _ _
              (λ refused. (refl, inr (inr (inl ((refl, refl, refl, (false, refl)), ground arith)))))
              (λ allowed.
                if-both (AnswersDuly gate payload admission s)
                  (leb s.limits.max_operations s.outstanding_operations
                    || ltb s.limits.max_queued_bytes (s.outstanding_bytes + length payload))
                  _ _
                  (λ full. (refl, inr (inr (inr ((refl, refl, refl, (true, refl)), ground arith)))))
                  (λ room. (
                    refl,
                    ground arith,
                    ground arith,
                    ground arith,
                    ground arith,
                    ground arith,
                    admit-TakesOn gate payload admission start_throws s,
                  )))))

-- The active operation has no result yet, or a true one.
abbrev pub ActiveReports : Option WriteOperation → Type 0
ActiveReports none = Unit {0}
ActiveReports (some op) = ReportsAny op op.result

standing-ActiveReports :
    (chunk_bytes : ℕ) (d : Drain) → Stands chunk_bytes d → ActiveReports (active_of d)
standing-ActiveReports chunk_bytes resting st = tt
standing-ActiveReports chunk_bytes (writing op chunk_end) (sound, _, _, _) = sound.reported
standing-ActiveReports chunk_bytes (returned op r) (sound, _) = sound.reported

-- Over any history of a new scheduler and for any payload that is offered behind it:
-- every operation that has left the scheduler has a result, and it is true, as is that of the active
-- operation if it has one: the requested bytes are the length of the payload, the sent bytes are
-- those acknowledged before the promise was resolved, and the outcome agrees with them;
-- the bytes that the driver has acknowledged, by a whole number from 1 to the length of its chunk, also
-- after the promise was resolved, are the beginnings of the payloads of the finished operations, in
-- their order, and then that of the active one;
-- `enqueue` answers a promise for the next operation if the payload is not empty, shutdown was not
-- called, the write is authorized and there is place for it, and this operation and the bytes of the
-- payload are then accounted for; otherwise it leaves the scheduler and answers
-- that 0 bytes were sent, with the outcome and the error of one of these reasons, which does hold.
pub run-writes :
    (limits : Limits) (s : Scheduler) (events : List (Gate × Event)) (gate : Gate) (payload : Bytes)
    (admission : Option Text) (start_throws : Bool)
    → new_scheduler limits ≡ some s
    → AllClosed (run events s).finished
      × ActiveReports (active_of (run events s).drain)
      × ((run events s).wire
          ≡ sent_by (run events s).finished ++ sent_active (active_of (run events s).drain))
      × AnswersDuly gate payload admission
          (run events s)
          (enqueue gate payload admission start_throws (run events s))
run-writes limits s events gate payload admission start_throws e =
    let v = new_scheduler-IsValid limits s e in
    let r = run-Recorded events s v (new_scheduler-Recorded limits s e) in
    (
      r.closed,
      standing-ActiveReports _ (run events s).drain (run-IsValid events s v).standing,
      r.on_wire,
      enqueue-AnswersDuly gate payload admission start_throws (run events s),
    )
