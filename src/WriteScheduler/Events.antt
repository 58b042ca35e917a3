-- ===== src/WriteScheduler/Events.antt =====
-- The calls and continuations of the write scheduler (src/lib/serial-write-scheduler.ts) keep it valid.
use bbcom.Base.{
  ℕ, ◌+◌, ◌-◌, ◌≤◌, ◌<◌, ◌≡◌, refl, sym, ap, ◌∙◌, subst, Bool, true, false, not, ◌||◌, Option, none,
  some, List, [], ◌∷◌, ◌++◌, arith, ltb, leb, ◌==◌, if◌then◌else◌, length, length-append,
}
use bbcom.Base.Text.{Text}
use bbcom.Base.Number.{Number, finite, nan, infinity, minus_infinity}
use bbcom.WriteScheduler.{
  Bytes, SendResult, WriteOperation, is_settled, Drain, resting, writing, returned, Scheduler,
  active_of, Gate, authorized, Answer, is_resting, start_drain, admit, enqueue, DriverAnswer, wrote,
  threw, stopped, progress_of, continue_write, driver_late, driver_wrote, driver_settled,
  driver_answers,
}
use bbcom.WriteScheduler.Accounting.{
  Reports, ReportsAny, NoneLate, IsSound, open_bytes_of, active_ops, active_bytes, queued_bytes,
  AllFresh, Stands, RestsEmpty, IsValid,
}
use bbcom.WriteScheduler.Steps.{
  StandsAt, if-StandsAt, returned-StandsAt, write_chunk-StandsAt, next_chunk-StandsAt,
  stands-IsValid, IsBetween, if-IsValid, take_next-IsValid, cancelled_after-Reports,
  write_failure-Reports,
}

pub resting_of : (d : Drain) → is_resting d ≡ true → d ≡ resting
resting_of resting e = refl
resting_of (writing op chunk_end) e = cc
resting_of (returned op r) e = cc

queued_bytes-append :
    (xs ys : List WriteOperation) → queued_bytes (xs ++ ys) ≡ queued_bytes xs + queued_bytes ys
queued_bytes-append [] ys = omega arith
queued_bytes-append (x ∷ xs) ys = omega (arith, queued_bytes-append xs ys)

pub AllFresh-append :
    (xs ys : List WriteOperation) → AllFresh xs → AllFresh ys → AllFresh (xs ++ ys)
AllFresh-append [] ys f g = g
AllFresh-append (x ∷ xs) ys f g = (f.0, AllFresh-append xs ys f.1 g)

start_drain-IsValid :
    (gate : Gate) (s : Scheduler)
    → (is_resting s.drain ≡ true → IsBetween s s.queue)
    → (is_resting s.drain ≡ false → IsValid s)
    → IsValid (start_drain gate s)
unfolding start_drain
start_drain-IsValid gate s between standing =
    if-IsValid (is_resting s.drain) _ _ (λ e. take_next-IsValid gate s s.queue (between e)) standing

RestsEmpty-longer :
    (d : Drain) (q q' : List WriteOperation)
    → is_resting d ≡ false
    → RestsEmpty d q
    → RestsEmpty d q'
RestsEmpty-longer resting q q' e r = cc
RestsEmpty-longer (writing op chunk_end) q q' e r = tt
RestsEmpty-longer (returned op x) q q' e r = tt

admit-IsValid :
    (gate : Gate) (payload : Bytes) (admission : Option Text) (start_throws : Bool) (s : Scheduler)
    → IsValid s
    → s.outstanding_operations < s.limits.max_operations
    → s.outstanding_bytes + length payload ≤ s.limits.max_queued_bytes
    → IsValid (admit gate payload admission start_throws s)
unfolding admit
admit-IsValid gate payload admission start_throws s v few room =
    let op : WriteOperation = record {
      id = s.next_id;
      payload = payload;
      admission = admission;
      start_throws = start_throws;
      sent_bytes = 0;
      late_bytes = 0;
      result = none;
    } in
    let more_ops = length-append s.queue (op ∷ []) in
    let more_bytes = queued_bytes-append s.queue (op ∷ []) in
    let fresh =
      AllFresh-append s.queue (op ∷ []) v.fresh
        (record { unsent = refl; unanswered = refl; unsettled = refl }, tt) in
    start_drain-IsValid gate _
      (λ rest. record {
        operations_counted = omega (
          arith,
          v.operations_counted,
          more_ops,
          ap (λ d. active_ops (active_of d)) (resting_of s.drain rest),
        );
        bytes_counted = omega (
          arith,
          v.bytes_counted,
          more_bytes,
          ap (λ d. active_bytes (active_of d)) (resting_of s.drain rest),
        );
        operations_bounded = omega arith;
        bytes_bounded = omega arith;
        chunk_positive = v.chunk_positive;
        fresh = fresh;
      })
      (λ busy. record {
        operations_counted = omega (arith, v.operations_counted, more_ops);
        bytes_counted = omega (arith, v.bytes_counted, more_bytes);
        operations_bounded = omega arith;
        bytes_bounded = omega arith;
        chunk_positive = v.chunk_positive;
        fresh = fresh;
        standing = v.standing;
        rests = RestsEmpty-longer s.drain s.queue (s.queue ++ op ∷ []) busy v.rests;
      })

if-second :
    (b : Bool) (x y : Answer × Scheduler)
    → (b ≡ true → IsValid x.1)
    → (b ≡ false → IsValid y.1)
    → IsValid (if b then x else y).1
if-second true x y f g = f refl
if-second false x y f g = g refl

pub enqueue-IsValid :
    (gate : Gate) (payload : Bytes) (admission : Option Text) (start_throws : Bool) (s : Scheduler)
    → IsValid s
    → IsValid (enqueue gate payload admission start_throws s).1
unfolding enqueue
enqueue-IsValid gate payload admission start_throws s v =
    let full =
      leb s.limits.max_operations s.outstanding_operations
      || ltb s.limits.max_queued_bytes (s.outstanding_bytes + length payload) in
    if-second (length payload == 0) _ _ (λ _. v)
      (λ _.
        if-second (not s.accepting) _ _ (λ _. v)
          (λ _.
            if-second (not (authorized gate admission)) _ _ (λ _. v)
              (λ _.
                if-second full _ _ (λ _. v)
                  (λ room.
                    admit-IsValid gate payload admission start_throws s v (ground (arith, room))
                      (ground (arith, room))))))

-- The driver's answer.
pub unsettled_of : (o : Option SendResult) → is_settled o ≡ false → o ≡ none
unsettled_of none e = refl
unsettled_of (some r) e = cc

pub progress_of-bounds :
    (n : Number) (chunk written : ℕ)
    → progress_of n chunk ≡ some written
    → (0 < written) × (written ≤ chunk)
unfolding progress_of
progress_of-bounds (finite n fraction) chunk written e = ground arith
progress_of-bounds nan chunk written e = cc
progress_of-bounds infinity chunk written e = cc
progress_of-bounds minus_infinity chunk written e = cc

pub continue_write-StandsAt :
    (gate : Gate) (accepting : Bool) (chunk_bytes : ℕ) (op : WriteOperation) (chunk_end : ℕ)
    → IsSound op
    → chunk_end ≤ length op.payload
    → chunk_end ≤ op.sent_bytes + chunk_bytes
    → 1 ≤ chunk_bytes
    → StandsAt chunk_bytes op (continue_write gate accepting chunk_bytes op chunk_end)
unfolding continue_write
continue_write-StandsAt gate accepting chunk_bytes op chunk_end v h k c =
    if-StandsAt chunk_bytes op (not accepting) _ _
      (λ _. returned-StandsAt chunk_bytes op _ v (cancelled_after-Reports op v))
      (λ _.
        if-StandsAt chunk_bytes op (ltb op.sent_bytes chunk_end) _ _
          (λ more.
            write_chunk-StandsAt chunk_bytes gate accepting op v chunk_end (ground (arith, more)) h
              k)
          (λ _. next_chunk-StandsAt chunk_bytes gate accepting op v c))

stopped-Reports :
    (accepting : Bool) (op : WriteOperation) → IsSound op → Reports op (stopped accepting op)
stopped-Reports true op v = write_failure-Reports op
stopped-Reports false op v = cancelled_after-Reports op v

-- `writeOperation` returns: nothing else changes.
pub return-IsValid :
    (s : Scheduler) (op : WriteOperation) (r : SendResult)
    → IsValid s
    → active_of s.drain ≡ some op
    → IsSound op
    → Reports op r
    → IsValid (record s { drain = returned op r })
return-IsValid s op r v at sound reports =
    stands-IsValid (record s { drain = returned op r }) op
      (returned-StandsAt s.limits.chunk_bytes op r sound reports)
      (v.operations_counted ∙ ap (λ o. active_ops o + length s.queue) at)
      (v.bytes_counted ∙ ap (λ o. active_bytes o + queued_bytes s.queue) at) v.operations_bounded
      v.bytes_bounded v.chunk_positive v.fresh

driver_wrote-IsValid :
    (gate : Gate) (op : WriteOperation) (chunk_end : ℕ) (written : Option ℕ) (s : Scheduler)
    → IsValid s
    → s.drain ≡ writing op chunk_end
    → op.result ≡ none
    → ((w : ℕ) → written ≡ some w → (0 < w) × (w ≤ chunk_end - op.sent_bytes))
    → IsValid (driver_wrote gate op chunk_end written s)
unfolding driver_wrote
driver_wrote-IsValid gate op chunk_end none s v at open_op bounds =
    let (sound, h, k, c) = subst (Stands s.limits.chunk_bytes) at v.standing in
    return-IsValid s op _ v (ap active_of at) sound (stopped-Reports s.accepting op sound)
driver_wrote-IsValid gate op chunk_end (some written) s v at open_op bounds =
    let (sound, h, k, c) = subst (Stands s.limits.chunk_bytes) at v.standing in
    let (positive, fits) = bounds written refl in
    let op' : WriteOperation = record op { sent_bytes = op.sent_bytes + written } in
    let sound' : IsSound op' = record {
      sent_le = omega arith;
      reported = subst (ReportsAny op') (sym open_op) tt;
      none_late = sound.none_late;
    } in
    let ops = v.operations_counted ∙ ap (λ o. active_ops o + length s.queue) (ap active_of at) in
    let bytes =
      v.bytes_counted ∙ ap (λ o. active_bytes o + queued_bytes s.queue) (ap active_of at) in
    stands-IsValid _ op'
      (continue_write-StandsAt gate s.accepting s.limits.chunk_bytes op' chunk_end sound' k
        (omega arith) v.chunk_positive)
      ops (omega (arith, bytes, ap (open_bytes_of op) open_op, ap (open_bytes_of op') open_op))
      v.operations_bounded (omega (arith, v.bytes_bounded)) v.chunk_positive v.fresh

-- A late answer changes neither the counters nor what the promise said.
ReportsAny-late :
    (op : WriteOperation) (late : ℕ) (o : Option SendResult)
    → ReportsAny op o
    → ReportsAny (record op { late_bytes = late }) o
ReportsAny-late op late none h = tt
ReportsAny-late op late (some r) h = record {
  requested = h.requested;
  sent = h.sent;
  says = h.says;
}

NoneLate-late : (o : Option SendResult) (late : ℕ) → is_settled o ≡ true → NoneLate o late
NoneLate-late none late e = cc
NoneLate-late (some r) late e = tt

open_bytes-late :
    (op : WriteOperation) (late : ℕ) (o : Option SendResult)
    → open_bytes_of op o ≡ open_bytes_of (record op { late_bytes = late }) o
open_bytes-late op late none = refl
open_bytes-late op late (some r) = refl

driver_late-IsValid :
    (op : WriteOperation) (chunk_end : ℕ) (written : Option ℕ) (s : Scheduler)
    → IsValid s
    → s.drain ≡ writing op chunk_end
    → is_settled op.result ≡ true
    → IsValid (driver_late op written s)
unfolding driver_late
driver_late-IsValid op chunk_end none s v at closed =
    let (sound, _, _, _) = subst (Stands s.limits.chunk_bytes) at v.standing in
    return-IsValid s op _ v (ap active_of at) sound (cancelled_after-Reports op sound)
driver_late-IsValid op chunk_end (some written) s v at closed =
    let (sound, _, _, _) = subst (Stands s.limits.chunk_bytes) at v.standing in
    let late = op.late_bytes + written in
    let op' : WriteOperation = record op { late_bytes = late } in
    let sound' : IsSound op' = record {
      sent_le = sound.sent_le;
      reported = ReportsAny-late op late op.result sound.reported;
      none_late = NoneLate-late op.result late closed;
    } in
    stands-IsValid _ op'
      (returned-StandsAt s.limits.chunk_bytes op' _ sound' (cancelled_after-Reports op' sound'))
      (v.operations_counted ∙ ap (λ o. active_ops o + length s.queue) (ap active_of at))
      (v.bytes_counted
        ∙ ap (λ o. active_bytes o + queued_bytes s.queue) (ap active_of at)
        ∙ ap (λ n. n + queued_bytes s.queue) (open_bytes-late op late op.result))
      v.operations_bounded v.bytes_bounded v.chunk_positive v.fresh

driver_settled-IsValid :
    (gate : Gate) (op : WriteOperation) (chunk_end : ℕ) (answer : DriverAnswer) (s : Scheduler)
    → IsValid s
    → s.drain ≡ writing op chunk_end
    → IsValid (driver_settled gate op chunk_end answer s)
unfolding driver_settled
driver_settled-IsValid gate op chunk_end threw s v at =
    let (sound, h, k, c) = subst (Stands s.limits.chunk_bytes) at v.standing in
    return-IsValid s op _ v (ap active_of at) sound (stopped-Reports s.accepting op sound)
driver_settled-IsValid gate op chunk_end (wrote n) s v at =
    let (sound, h, k, c) = subst (Stands s.limits.chunk_bytes) at v.standing in
    if-IsValid (is_settled op.result) _ _
      (λ closed.
        driver_late-IsValid op chunk_end (progress_of n (chunk_end - op.sent_bytes)) s v at closed)
      (λ open_op.
        driver_wrote-IsValid gate op chunk_end (progress_of n (chunk_end - op.sent_bytes)) s v at
          (unsettled_of op.result open_op)
          (λ w e. progress_of-bounds n (chunk_end - op.sent_bytes) w e))

pub driver_answers-IsValid :
    (gate : Gate) (answer : DriverAnswer) (d : Drain) (s : Scheduler)
    → IsValid s
    → s.drain ≡ d
    → IsValid (driver_answers gate answer d s)
unfolding driver_answers
driver_answers-IsValid gate answer resting s v at = v
driver_answers-IsValid gate answer (returned op r) s v at = v
driver_answers-IsValid gate answer (writing op chunk_end) s v at =
    driver_settled-IsValid gate op chunk_end answer s v at
