-- ===== src/WriteScheduler/Wire.antt =====
-- Every event keeps the record of what the write scheduler (src/lib/serial-write-scheduler.ts) has written.
use bbcom.Base.{
  ℕ, ◌+◌, ◌-◌, ◌≤◌, ◌<◌, ◌≡◌, refl, sym, ap, ◌∙◌, subst, Bool, true, false, not, ◌&&◌, ◌||◌, Option,
  none, some, List, [], ◌∷◌, ◌++◌, arith, if◌then◌else◌, length, take, drop, take_split,
  append_assoc, append-nil, ltb, leb, ◌==◌,
}
use bbcom.Base.Text.{Text}
use bbcom.WriteScheduler.{
  Bytes, WriteOperation, is_settled, Drain, resting, writing, returned, Limits, Scheduler,
  active_of, Gate, authorized, Answer, cancelled_after, settle, settle_account, is_resting,
  start_drain, admit, enqueue, DriverAnswer, wrote, threw, progress_of, driver_late, driver_wrote,
  driver_settled, driver_answers, resume, cancel_queued, await_active, shutdown, settle_active,
  is_waited_for, expire, wait_for_idle, is_idle, Event, enqueued, driver, continued, shut_down,
  grace_over, idle_awaited, wait_aborted, step, run, new_scheduler,
}
use bbcom.WriteScheduler.Accounting.{
  Reports, ReportsAny, NoneLate, IsSound, IsFresh, AllFresh, Stands, IsValid, active_ops,
  active_bytes, queued_bytes,
}
use bbcom.WriteScheduler.Steps.{cancelled_after-Reports, fresh-IsSound}
use bbcom.WriteScheduler.Closing.{settle_account-Settled}
use bbcom.WriteScheduler.Events.{
  continue_write-StandsAt, unsettled_of, progress_of-bounds, AllFresh-append, resting_of,
}
use bbcom.WriteScheduler.History.{step-IsValid, run-IsValid, new_scheduler-IsValid, if_some}
use bbcom.WriteScheduler.Recorded.{
  sent_by, sent_active, AllClosed, IsRecorded, Recorded, finish-IsRecorded, settle-IsClosed,
  take_next-Recorded, resolve-Recorded, if-Recorded, AllClosed-snoc, sent_by_snoc,
  nothing_acknowledged,
}

start_drain-Recorded :
    (gate : Gate) (s : Scheduler)
    → AllFresh s.queue
    → 1 ≤ s.limits.chunk_bytes
    → Recorded s
    → Recorded (start_drain gate s)
unfolding start_drain
start_drain-Recorded gate s f h v =
    if-Recorded (is_resting s.drain) _ _
      (λ rest.
        take_next-Recorded gate s s.queue f h
          (subst (λ d. IsRecorded s.finished (active_of d) s.wire) (resting_of s.drain rest) v))
      (λ _. v)

if-second :
    (b : Bool) (x y : Answer × Scheduler)
    → Recorded x.1
    → Recorded y.1
    → Recorded (if b then x else y).1
if-second true x y f g = f
if-second false x y f g = g

enqueue-Recorded :
    (gate : Gate) (payload : Bytes) (admission : Option Text) (start_throws : Bool) (s : Scheduler)
    → IsValid s
    → Recorded s
    → Recorded (enqueue gate payload admission start_throws s).1
unfolding enqueue admit
enqueue-Recorded gate payload admission start_throws s v r = if-second (length payload == 0) _ _ r (
    if-second (not s.accepting) _ _ r (
      if-second (not (authorized gate admission)) _ _ r (
        if-second
          (leb s.limits.max_operations s.outstanding_operations
            || ltb s.limits.max_queued_bytes (s.outstanding_bytes + length payload))
          _ _ r
          (start_drain-Recorded gate _
            (AllFresh-append s.queue _ v.fresh
              (record { unsent = refl; unanswered = refl; unsettled = refl }, tt))
            v.chunk_positive r))))

driver_wrote-Recorded :
    (gate : Gate) (op : WriteOperation) (chunk_end : ℕ) (written : Option ℕ) (s : Scheduler)
    → IsValid s
    → Recorded s
    → s.drain ≡ writing op chunk_end
    → op.result ≡ none
    → ((w : ℕ) → written ≡ some w → (0 < w) × (w ≤ chunk_end - op.sent_bytes))
    → Recorded (driver_wrote gate op chunk_end written s)
unfolding driver_wrote
driver_wrote-Recorded gate op chunk_end none s v r at open_op bounds =
    subst (λ o. IsRecorded s.finished o s.wire) (ap active_of at) r
driver_wrote-Recorded gate op chunk_end (some written) s v r at open_op bounds =
    let (sound, h, k, c) = subst (Stands s.limits.chunk_bytes) at v.standing in
    let (positive, fits) = bounds written refl in
    let op' : WriteOperation = record op { sent_bytes = op.sent_bytes + written } in
    let sound' : IsSound op' = record {
      sent_le = omega arith;
      reported = subst (ReportsAny op') (sym open_op) tt;
      none_late = sound.none_late;
    } in
    let punctual : op.late_bytes ≡ 0 =
      subst (λ o. NoneLate o op.late_bytes) open_op sound.none_late in
    let d =
      continue_write-StandsAt gate s.accepting s.limits.chunk_bytes op' chunk_end sound' k
        (omega arith) v.chunk_positive in
    record {
      closed = r.closed;
      on_wire =
          ap (λ w. w ++ take written (drop op.sent_bytes op.payload))
            (r.on_wire ∙ ap (λ x. sent_by s.finished ++ sent_active (active_of x)) at)
          ∙ ap
              (λ n.
                (sent_by s.finished ++ take n op.payload)
                ++ take written (drop op.sent_bytes op.payload))
              (omega (arith, punctual))
          ∙ append_assoc (sent_by s.finished) (take op.sent_bytes op.payload)
              (take written (drop op.sent_bytes op.payload))
          ∙ ap (λ t. sent_by s.finished ++ t) (sym (take_split op.sent_bytes written op.payload))
          ∙ ap (λ n. sent_by s.finished ++ take n op.payload) (omega (arith, punctual))
          ∙ ap (λ o. sent_by s.finished ++ sent_active o) (sym d.at);
    }

driver_late-Recorded :
    (op : WriteOperation) (written : Option ℕ) (s : Scheduler)
    → IsRecorded s.finished (some op) s.wire
    → Recorded (driver_late op written s)
unfolding driver_late
driver_late-Recorded op none s r = record { closed = r.closed; on_wire = r.on_wire }
driver_late-Recorded op (some written) s r =
    let before = op.sent_bytes + op.late_bytes in
    let late = take written (drop before op.payload) in
    record {
      closed = r.closed;
      on_wire =
          ap (λ w. w ++ late) r.on_wire
          ∙ append_assoc (sent_by s.finished) (take before op.payload) late
          ∙ ap (λ t. sent_by s.finished ++ t) (sym (take_split before written op.payload))
          ∙ ap (λ n. sent_by s.finished ++ take n op.payload) (omega arith);
    }

driver_settled-Recorded :
    (gate : Gate) (op : WriteOperation) (chunk_end : ℕ) (answer : DriverAnswer) (s : Scheduler)
    → IsValid s
    → Recorded s
    → s.drain ≡ writing op chunk_end
    → Recorded (driver_settled gate op chunk_end answer s)
unfolding driver_settled
driver_settled-Recorded gate op chunk_end threw s v r at =
    subst (λ o. IsRecorded s.finished o s.wire) (ap active_of at) r
driver_settled-Recorded gate op chunk_end (wrote n) s v r at =
    if-Recorded (is_settled op.result) _ _
      (λ _.
        driver_late-Recorded op (progress_of n (chunk_end - op.sent_bytes)) s
          (subst (λ o. IsRecorded s.finished o s.wire) (ap active_of at) r))
      (λ open_op.
        driver_wrote-Recorded gate op chunk_end (progress_of n (chunk_end - op.sent_bytes)) s v r at
          (unsettled_of op.result open_op)
          (λ w e. progress_of-bounds n (chunk_end - op.sent_bytes) w e))

driver_answers-Recorded :
    (gate : Gate) (answer : DriverAnswer) (d : Drain) (s : Scheduler)
    → IsValid s
    → Recorded s
    → s.drain ≡ d
    → Recorded (driver_answers gate answer d s)
unfolding driver_answers
driver_answers-Recorded gate answer resting s v r at = r
driver_answers-Recorded gate answer (returned op x) s v r at = r
driver_answers-Recorded gate answer (writing op chunk_end) s v r at =
    driver_settled-Recorded gate op chunk_end answer s v r at

resume-Recorded :
    (gate : Gate) (d : Drain) (s : Scheduler)
    → IsValid s
    → Recorded s
    → s.drain ≡ d
    → Recorded (resume gate d s)
unfolding resume
resume-Recorded gate resting s v r at = r
resume-Recorded gate (writing op chunk_end) s v r at = r
resume-Recorded gate (returned op x) s v r at =
    let (sound, reports) = subst (Stands s.limits.chunk_bytes) at v.standing in
    let t = settle_account-Settled s op in
    take_next-Recorded gate _ s.queue v.fresh
      (omega (arith, ap (λ l. l.chunk_bytes) t.limits, v.chunk_positive))
      (subst (λ f. IsRecorded (f ++ settle op x ∷ []) none (settle_account s op).wire)
        (sym t.finished)
        (subst (λ w. IsRecorded (s.finished ++ settle op x ∷ []) none w) (sym t.wire)
          (finish-IsRecorded s.finished op s.wire x
            (subst (λ d. IsRecorded s.finished (active_of d) s.wire) at r)
            (settle-IsClosed op x sound.reported reports))))

-- A queued operation has sent nothing, so that it can be finished in front of the active one.
cancel-IsRecorded :
    (finished : List WriteOperation) (active : Option WriteOperation) (wire : Bytes)
    (op : WriteOperation)
    → IsFresh op
    → IsRecorded finished active wire
    → IsRecorded (finished ++ settle op (cancelled_after (length op.payload) 0) ∷ []) active wire
unfolding settle
cancel-IsRecorded finished active wire op f v =
    let closed =
      settle-IsClosed op (cancelled_after (length op.payload) 0) (fresh-IsSound op f).reported (
        subst (λ n. Reports op (cancelled_after (length op.payload) n)) f.unsent
          (cancelled_after-Reports op (fresh-IsSound op f))) in
    record {
      closed = AllClosed-snoc finished _ v.closed closed;
      on_wire =
          v.on_wire
          ∙ ap (λ t. t ++ sent_active active)
              (sym (
                sent_by_snoc finished (settle op (cancelled_after (length op.payload) 0))
                ∙ ap (λ n. sent_by finished ++ take n op.payload) (nothing_acknowledged op f)
                ∙ append-nil (sent_by finished)));
    }

cancel_queued-Recorded :
    (queue : List WriteOperation) (s : Scheduler)
    → AllFresh queue
    → Recorded s
    → Recorded (cancel_queued queue s)
unfolding cancel_queued
cancel_queued-Recorded [] s f r = r
cancel_queued-Recorded (op ∷ ops) s f r =
    let t = settle_account-Settled s op in
    cancel_queued-Recorded ops _ f.1 (
      subst
        (λ x.
          IsRecorded (x ++ settle op (cancelled_after (length op.payload) 0) ∷ [])
            (active_of (settle_account s op).drain) (settle_account s op).wire)
        (sym t.finished)
        (cancel-IsRecorded s.finished (active_of (settle_account s op).drain)
          (settle_account s op).wire op f.0
          (subst (λ d. IsRecorded s.finished (active_of d) (settle_account s op).wire) (sym t.drain)
            (subst (λ w. IsRecorded s.finished (active_of s.drain) w) (sym t.wire) r))))

await_active-Recorded :
    (o : Option WriteOperation) (s : Scheduler) → Recorded s → Recorded (await_active o s)
unfolding await_active
await_active-Recorded none s r = r
await_active-Recorded (some op) s r = if-Recorded (is_settled op.result) _ _ (λ _. r) (λ _. r)

sent-settle_active :
    (d : Drain) → sent_active (active_of (settle_active d)) ≡ sent_active (active_of d)
unfolding settle
sent-settle_active resting = refl
sent-settle_active (writing op chunk_end) = refl
sent-settle_active (returned op x) = refl

expire-Recorded : (o : Option WriteOperation) (s : Scheduler) → Recorded s → Recorded (expire o s)
unfolding expire
expire-Recorded none s r = r
expire-Recorded (some op) s r =
    let t = settle_account-Settled s op in
    if-Recorded (is_waited_for op.id s.closing && not (is_settled op.result)) _ _
      (λ _. record {
        closed = subst AllClosed (sym t.finished) r.closed;
        on_wire =
            t.wire
            ∙ r.on_wire
            ∙ ap (λ f. sent_by f ++ sent_active (active_of s.drain)) (sym t.finished)
            ∙ ap (λ x. sent_by (settle_account s op).finished ++ x)
                (sym (sent-settle_active s.drain));
      })
      (λ _. r)

wait_for_idle-Recorded : (s : Scheduler) → Recorded s → Recorded (wait_for_idle s)
unfolding wait_for_idle
wait_for_idle-Recorded s r = if-Recorded (is_idle s) _ _ (λ _. r) (λ _. resolve-Recorded _ r)

step-Recorded :
    (gate : Gate) (e : Event) (s : Scheduler) → IsValid s → Recorded s → Recorded (step gate e s)
unfolding step shutdown
step-Recorded gate (enqueued payload admission start_throws) s v r =
    enqueue-Recorded gate payload admission start_throws s v r
step-Recorded gate (driver answer) s v r = driver_answers-Recorded gate answer s.drain s v r refl
step-Recorded gate continued s v r = resume-Recorded gate s.drain s v r refl
step-Recorded gate shut_down s v r =
    await_active-Recorded (active_of s.drain) _
      (cancel_queued-Recorded s.queue (record s { accepting = false }) v.fresh r)
step-Recorded gate grace_over s v r = expire-Recorded (active_of s.drain) s r
step-Recorded gate idle_awaited s v r = wait_for_idle-Recorded s r
step-Recorded gate wait_aborted s v r = r

pub run-Recorded :
    (events : List (Gate × Event)) (s : Scheduler)
    → IsValid s
    → Recorded s
    → Recorded (run events s)
unfolding run
run-Recorded [] s v r = r
run-Recorded ((gate, e) ∷ events) s v r =
    run-Recorded events (step gate e s) (step-IsValid gate e s v) (step-Recorded gate e s v r)

pub new_scheduler-Recorded :
    (limits : Limits) (s : Scheduler) → new_scheduler limits ≡ some s → Recorded s
unfolding new_scheduler sent_by
new_scheduler-Recorded limits s e =
    let (_, same) =
      if_some
        (leb limits.max_operations 0 || leb limits.max_queued_bytes 0 || leb limits.chunk_bytes 0) _
        s e in
    subst Recorded same (record { closed = tt; on_wire = refl })

-- Over any history of a new scheduler: `outstandingOperations` and `outstandingBytes` are exactly the operations
-- that are queued or active and not settled, and their unsent bytes; both stay within the limits.
pub run-accounts :
    (limits : Limits) (s : Scheduler) (events : List (Gate × Event))
    → new_scheduler limits ≡ some s
    → ((run events s).outstanding_operations
        ≡ active_ops (active_of (run events s).drain) + length (run events s).queue)
      × ((run events s).outstanding_bytes
          ≡ active_bytes (active_of (run events s).drain) + queued_bytes (run events s).queue)
      × ((run events s).outstanding_operations ≤ (run events s).limits.max_operations)
      × ((run events s).outstanding_bytes ≤ (run events s).limits.max_queued_bytes)
run-accounts limits s events e =
    let v = run-IsValid events s (new_scheduler-IsValid limits s e) in
    (v.operations_counted, v.bytes_counted, v.operations_bounded, v.bytes_bounded)
