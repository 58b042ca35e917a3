-- ===== src/WriteScheduler/Accounting.antt =====
-- What holds of the write scheduler (src/lib/serial-write-scheduler.ts) between two events.
use bbcom.Base.{ℕ, ◌+◌, ◌-◌, ◌≤◌, ◌<◌, ◌≡◌, Option, none, some, List, [], ◌∷◌, length}
use bbcom.WriteScheduler.{
  Outcome, complete, partial, failed, cancelled, SendResult, WriteOperation, Drain, resting,
  writing, returned, Scheduler, active_of,
}

-- An outcome says how many bytes were sent.
abbrev pub Says : Outcome → SendResult → Type 0
Says complete r = (r.sent_bytes ≡ r.requested_bytes) × (r.error ≡ none)
Says partial r = 0 < r.sent_bytes
Says failed r = r.sent_bytes ≡ 0
Says cancelled r = r.sent_bytes ≤ r.requested_bytes

-- A result tells the truth about an operation.
pub record Reports (op : WriteOperation) (r : SendResult) : Type 0 where
  pub requested : r.requested_bytes ≡ length op.payload
  pub sent : r.sent_bytes ≡ op.sent_bytes
  pub says : Says r.outcome r

abbrev pub ReportsAny : WriteOperation → Option SendResult → Type 0
ReportsAny op none = Unit {0}
ReportsAny op (some r) = Reports op r

-- Nothing is late before the promise is resolved.
abbrev pub NoneLate : Option SendResult → ℕ → Type 0
NoneLate none late = late ≡ 0
NoneLate (some r) late = Unit {0}

pub record IsSound (op : WriteOperation) : Type 0 where
  pub sent_le : op.sent_bytes ≤ length op.payload
  pub reported : ReportsAny op op.result
  pub none_late : NoneLate op.result op.late_bytes

pub record IsFresh (op : WriteOperation) : Type 0 where
  pub unsent : op.sent_bytes ≡ 0
  pub unanswered : op.late_bytes ≡ 0
  pub unsettled : op.result ≡ none

-- Bytes and operations that the counters stand for.
abbrev pub open_ops_of : Option SendResult → ℕ
open_ops_of none = 1
open_ops_of (some r) = 0

abbrev pub open_bytes_of : WriteOperation → Option SendResult → ℕ
open_bytes_of op none = length op.payload - op.sent_bytes
open_bytes_of op (some r) = 0

abbrev pub active_ops : Option WriteOperation → ℕ
active_ops none = 0
active_ops (some op) = open_ops_of op.result

abbrev pub active_bytes : Option WriteOperation → ℕ
active_bytes none = 0
active_bytes (some op) = open_bytes_of op op.result

abbrev pub queued_bytes : List WriteOperation → ℕ
queued_bytes [] = 0
queued_bytes (op ∷ ops) = length op.payload + queued_bytes ops

abbrev pub AllFresh : List WriteOperation → Type 0
AllFresh [] = Unit {0}
AllFresh (op ∷ ops) = IsFresh op × AllFresh ops

-- What is at the operation of the coroutine: a chunk that is not empty, lies in the payload and is not too long.
abbrev pub Stands : ℕ → Drain → Type 0
Stands chunk_bytes resting = Unit {0}
Stands chunk_bytes (writing op chunk_end) =
    IsSound op
    × (op.sent_bytes < chunk_end)
    × (chunk_end ≤ length op.payload)
    × (chunk_end ≤ op.sent_bytes + chunk_bytes)
Stands chunk_bytes (returned op r) = IsSound op × Reports op r

abbrev pub RestsEmpty : Drain → List WriteOperation → Type 0
RestsEmpty resting queue = queue ≡ []
RestsEmpty (writing op chunk_end) queue = Unit {0}
RestsEmpty (returned op r) queue = Unit {0}

-- The counters of the scheduler are those of the operations that are not settled, and the coroutine
-- stands where it can go on.
pub record IsValid (s : Scheduler) : Type 0 where
  pub operations_counted :
      s.outstanding_operations ≡ active_ops (active_of s.drain) + length s.queue
  pub bytes_counted : s.outstanding_bytes ≡ active_bytes (active_of s.drain) + queued_bytes s.queue
  pub operations_bounded : s.outstanding_operations ≤ s.limits.max_operations
  pub bytes_bounded : s.outstanding_bytes ≤ s.limits.max_queued_bytes
  pub chunk_positive : 1 ≤ s.limits.chunk_bytes
  pub fresh : AllFresh s.queue
  pub standing : Stands s.limits.chunk_bytes s.drain
  pub rests : RestsEmpty s.drain s.queue
