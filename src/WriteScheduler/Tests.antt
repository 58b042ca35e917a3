-- ===== src/WriteScheduler/Tests.antt =====
-- The write scheduler at a concrete history.
use bbcom.Base.{◌+◌, ◌≤◌, ◌≡◌, refl, arith, true, false, none, some, List, [], ◌∷◌, ◌++◌, length}
use bbcom.Base.Number.{of_ℕ}
use bbcom.WriteScheduler.{
  Gate, Event, DriverAnswer, threw, is_idle, enqueued, driver, continued, shut_down, grace_over,
  wrote, Limits, Scheduler, resting, active_of, new_scheduler, run, step, enqueue, admit,
  start_drain, take_next, start_operation, next_chunk, write_chunk, authorized, driver_answers,
  driver_settled, driver_late, driver_wrote, progress_of, continue_write, resume, settle,
  settle_account, shutdown, cancel_queued, await_active, expire, is_waited_for, cancelled_after,
  completed,
}
use bbcom.WriteScheduler.Accounting.{active_ops, active_bytes, queued_bytes}
use bbcom.WriteScheduler.Recorded.{AllClosed, sent_by, sent_active}
use bbcom.WriteScheduler.Progress.{load, pump, run-settles}
use bbcom.WriteScheduler.Wire.{run-accounts}
use bbcom.WriteScheduler.Answers.{ActiveReports, AnswersDuly, run-writes}

abbrev limits : Limits
limits = record { max_operations = 2; max_queued_bytes = 10; chunk_bytes = 2 }

abbrev fresh : Scheduler
fresh = record {
  limits = limits;
  queue = [];
  drain = resting;
  accepting = true;
  outstanding_operations = 0;
  outstanding_bytes = 0;
  idle_waiters = 0;
  waiters_told = 0;
  closing = [];
  next_id = 0;
  finished = [];
  wire = [];
}

-- Two payloads; the first is written by a short write and the rest of it, the second in part when the scheduler
-- is shut down, its grace period ends and a third payload comes too late.
abbrev history : List (Gate × Event)
history =
    (none, enqueued (1 ∷ 2 ∷ 3 ∷ []) none false)
    ∷ (none, driver (wrote (of_ℕ 1)))
    ∷ (none, enqueued (7 ∷ 8 ∷ 9 ∷ []) none false)
    ∷ (none, driver (wrote (of_ℕ 1)))
    ∷ (none, driver (wrote (of_ℕ 1)))
    ∷ (none, continued)
    ∷ (none, driver (wrote (of_ℕ 2)))
    ∷ (none, shut_down)
    ∷ (none, grace_over)
    ∷ (none, enqueued (5 ∷ []) none false)
    ∷ []

created : new_scheduler limits ≡ some fresh
unfolding new_scheduler
created = refl

run-accounts_example :
    ((run history fresh).outstanding_operations
      ≡ active_ops (active_of (run history fresh).drain) + length (run history fresh).queue)
    × ((run history fresh).outstanding_bytes
        ≡ active_bytes (active_of (run history fresh).drain)
          + queued_bytes (run history fresh).queue)
    × ((run history fresh).outstanding_operations ≤ (run history fresh).limits.max_operations)
    × ((run history fresh).outstanding_bytes ≤ (run history fresh).limits.max_queued_bytes)
run-accounts_example = run-accounts limits fresh history created

run-writes_example :
    AllClosed (run history fresh).finished
    × ActiveReports (active_of (run history fresh).drain)
    × ((run history fresh).wire
        ≡ sent_by (run history fresh).finished ++ sent_active (active_of (run history fresh).drain))
    × AnswersDuly none
        (4 ∷ [])
        none
        (run history fresh)
        (enqueue none (4 ∷ []) none false (run history fresh))
run-writes_example = run-writes limits fresh history none (4 ∷ []) none false created

-- An acknowledgement of two bytes behind the grace period.
late :
    (run
      ((none, enqueued (1 ∷ 2 ∷ 3 ∷ []) none false)
        ∷ (none, shut_down)
        ∷ (none, grace_over)
        ∷ (none, driver (wrote (of_ℕ 2)))
        ∷ [])
      fresh).wire
    ≡ 1 ∷ 2 ∷ []
unfolding run step enqueue admit start_drain take_next start_operation next_chunk write_chunk
    authorized driver_answers driver_settled driver_late progress_of settle settle_account shutdown
    cancel_queued await_active expire is_waited_for cancelled_after
late = refl

written : (run history fresh).wire ≡ 1 ∷ 2 ∷ 3 ∷ 7 ∷ 8 ∷ []
unfolding run step enqueue admit start_drain take_next start_operation next_chunk write_chunk
    authorized driver_answers driver_settled driver_late driver_wrote progress_of continue_write
    resume settle settle_account shutdown cancel_queued await_active expire is_waited_for
    cancelled_after completed
written = refl

left_open : (run history fresh).outstanding_bytes ≡ 0
unfolding run step enqueue admit start_drain take_next start_operation next_chunk write_chunk
    authorized driver_answers driver_settled driver_late driver_wrote progress_of continue_write
    resume settle settle_account shutdown cancel_queued await_active expire is_waited_for
    cancelled_after completed
left_open = refl

-- Two payloads are queued; the driver takes a byte, fails, and takes no more.
abbrev queued : List (Gate × Event)
queued = (none, enqueued (1 ∷ 2 ∷ 3 ∷ []) none false) ∷ (none, enqueued (4 ∷ []) none false) ∷ []

abbrev answers : List (Gate × DriverAnswer)
answers =
    (none, wrote (of_ℕ 1))
    ∷ (none, threw)
    ∷ (none, threw)
    ∷ (none, wrote (of_ℕ 9))
    ∷ (none, threw)
    ∷ (none, threw)
    ∷ (none, threw)
    ∷ (none, threw)
    ∷ (none, threw)
    ∷ (none, threw)
    ∷ (none, threw)
    ∷ (none, threw)
    ∷ (none, threw)
    ∷ []

enough : load (run queued fresh) ≤ length answers
unfolding run step enqueue admit start_drain take_next start_operation next_chunk write_chunk
    authorized
enough = omega arith

run-settles_example :
    (is_idle (pump answers (run queued fresh)) ≡ true)
    × ((pump answers (run queued fresh)).outstanding_operations ≡ 0)
    × ((pump answers (run queued fresh)).outstanding_bytes ≡ 0)
run-settles_example = run-settles limits fresh queued answers created enough
