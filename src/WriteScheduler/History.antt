-- ===== src/WriteScheduler/History.antt =====
-- Histories of events of the write scheduler (src/lib/serial-write-scheduler.ts).
use bbcom.Base.{
  ◌≡◌, refl, subst, arith, Option, none, some, List, [], ◌∷◌, leb, ◌||◌, if◌then◌else◌, true, false,
  Bool,
}
use bbcom.WriteScheduler.{
  Gate, Event, enqueued, driver, continued, shut_down, grace_over, idle_awaited, wait_aborted,
  Limits, Scheduler, active_of, new_scheduler, step, run,
}
use bbcom.WriteScheduler.Accounting.{IsValid}
use bbcom.WriteScheduler.Steps.{keep-IsValid}
use bbcom.WriteScheduler.Events.{enqueue-IsValid, driver_answers-IsValid}
use bbcom.WriteScheduler.Closing.{
  resume-IsValid, shutdown-IsValid, expire-IsValid, wait_for_idle-IsValid,
}

pub step-IsValid : (gate : Gate) (e : Event) (s : Scheduler) → IsValid s → IsValid (step gate e s)
unfolding step
step-IsValid gate (enqueued payload admission start_throws) s v =
    enqueue-IsValid gate payload admission start_throws s v
step-IsValid gate (driver answer) s v = driver_answers-IsValid gate answer s.drain s v refl
step-IsValid gate continued s v = resume-IsValid gate s.drain s v refl
step-IsValid gate shut_down s v = shutdown-IsValid s v
step-IsValid gate grace_over s v =
    keep-IsValid _ _ _ _ _ _ _ _ (expire-IsValid (active_of s.drain) s v refl)
step-IsValid gate idle_awaited s v = wait_for_idle-IsValid s v
step-IsValid gate wait_aborted s v = keep-IsValid s _ _ _ _ _ _ _ v

pub run-IsValid :
    (events : List (Gate × Event)) (s : Scheduler) → IsValid s → IsValid (run events s)
unfolding run
run-IsValid [] s v = v
run-IsValid ((gate, e) ∷ events) s v = run-IsValid events (step gate e s) (step-IsValid gate e s v)

pub if_some :
    (b : Bool) (x s : Scheduler)
    → ◌≡◌ {A = Option Scheduler} (if b then none else some x) (some s)
    → (b ≡ false) × (x ≡ s)
if_some true x s e = cc
if_some false x s e = (refl, cc)

pub new_scheduler-IsValid :
    (limits : Limits) (s : Scheduler) → new_scheduler limits ≡ some s → IsValid s
unfolding new_scheduler
new_scheduler-IsValid limits s e =
    let (bad, same) =
      if_some
        (leb limits.max_operations 0 || leb limits.max_queued_bytes 0 || leb limits.chunk_bytes 0) _
        s e in
    subst IsValid same (record {
      operations_counted = omega arith;
      bytes_counted = omega arith;
      operations_bounded = omega arith;
      bytes_bounded = omega arith;
      chunk_positive = ground (arith, bad);
      fresh = tt;
      standing = tt;
      rests = refl;
    })
