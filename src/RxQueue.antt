-- ===== src/RxQueue.antt =====
-- src/lib/serial-rx-queue.ts: the bounded receive buffer of a serial connection.
-- A `Uint8Array` is the list of its bytes. A slot of the backing array is an `Option`: `none` is the
-- `undefined` that a drop leaves behind, and reading the length of one is a TypeError.
pub mod Window
pub mod Policy
pub mod Refine
pub mod Newest
pub mod Account
pub mod Bounds
mod Tests
use bbcom.Base.{
  ℕ, zero, suc, ◌+◌, ◌-◌, Bool, true, false, not, ◌&&◌, ◌||◌, Option, none, some, List, [], ◌∷◌,
  ◌++◌, Result, ok, err, ◌>>=◌, ltb, leb, ◌==◌, if◌then◌else◌, length, get_elem?, set, drop,
}
use bbcom.Base.Number.{Number, is_finite, below, to_ℕ, finite}

abbrev pub Bytes : Type 0
Bytes = List ℕ

pub data Failure : Type 0 where
  range_error type_error : Failure

pub record RxQueue : Type 0 where
  pub max_bytes : ℕ
  pub max_chunks : ℕ
  pub chunks : List (Option Bytes)
  pub head : ℕ
  pub byte_length : ℕ
  pub dropped_since_drain : ℕ
  pub total_dropped : ℕ
  pub overflow_notified : Bool

pub record EnqueueResult : Type 0 where
  pub dropped_bytes : ℕ
  pub dropped_since_drain : ℕ
  pub total_dropped_bytes : ℕ
  pub overflow_started : Bool
  pub pending_bytes : ℕ
  pub pending_chunks : ℕ

pub record DrainResult : Type 0 where
  pub chunks : List (Option Bytes)
  pub byte_length : ℕ
  pub dropped_since_drain : ℕ

-- `Math.floor` of a number that is finite and not below 1.
floor : Number → Result Failure ℕ
floor (finite n f) = ok (to_ℕ n)
floor _ = err range_error

pub positive_integer : Number → Result Failure ℕ
unfolding floor
positive_integer value =
    if not (is_finite value) || below value 1 then err range_error else floor value

pub create : Number → Number → Result Failure RxQueue
create max_bytes max_chunks = do
  b ← positive_integer max_bytes
  c ← positive_integer max_chunks
  ok (record {
    max_bytes = b;
    max_chunks = c;
    chunks = [];
    head = 0;
    byte_length = 0;
    dropped_since_drain = 0;
    total_dropped = 0;
    overflow_notified = false;
  })

abbrev pub live_count : RxQueue → ℕ
live_count q = length q.chunks - q.head

pub record_drop : RxQueue → ℕ → RxQueue
record_drop q count = if leb count 0 then q else record q {
  dropped_since_drain = q.dropped_since_drain + count;
  total_dropped = q.total_dropped + count;
  overflow_notified = true;
}

-- `chunks[head].length`
pub slot_length : Option (Option Bytes) → Result Failure ℕ
slot_length (some (some c)) = ok (length c)
slot_length _ = err type_error

-- One round of the `while` loop of `enqueue`.
pub drop_oldest : RxQueue → Result Failure RxQueue
drop_oldest q = do
  n ← slot_length (get_elem? q.chunks q.head)
  ok (
      record_drop
        (record q {
          chunks = set q.chunks q.head none;
          head = q.head + 1;
          byte_length = q.byte_length - n;
        })
        n)

pub must_drop : RxQueue → ℕ → Bool
must_drop q incoming =
    ltb 0 (live_count q)
    && (ltb q.max_bytes (q.byte_length + incoming) || leb q.max_chunks (live_count q))

-- Every round moves `head`, so `live_count q` rounds are enough.
pub make_room : ℕ → RxQueue → ℕ → Result Failure RxQueue
make_room zero q incoming = ok q
make_room (suc rounds) q incoming =
    let next : Result Failure RxQueue = drop_oldest q >>= λ q'. make_room rounds q' incoming in
    if must_drop q incoming then next else ok q

pub push_live : RxQueue → Bytes → RxQueue
push_live q chunk =
    if ltb 0 q.head && leb (length q.chunks) (q.head + q.head)
    then record q { chunks = drop q.head q.chunks ++ some chunk ∷ []; head = 0 }
    else record q { chunks = q.chunks ++ some chunk ∷ [] }

-- An oversized payload: its newest `max_bytes` bytes are kept and the rest is counted as dropped.
pub store_newest : RxQueue → Bytes → RxQueue
store_newest q bytes =
    let retained = drop (length bytes - q.max_bytes) bytes in
    let q' = push_live (record_drop q (length bytes - length retained)) retained in
    record q' { byte_length = q'.byte_length + length retained }

pub store_whole : RxQueue → Bytes → RxQueue
store_whole q bytes =
    let q' = push_live q bytes in record q' { byte_length = q'.byte_length + length bytes }

-- The part of `enqueue` below the loop.
pub store : RxQueue → Bytes → RxQueue
store q bytes = if ltb q.max_bytes (length bytes) then store_newest q bytes else store_whole q bytes

pub enqueue : RxQueue → Bytes → Result Failure (EnqueueResult × RxQueue)
enqueue q bytes = do
  room ← make_room (live_count q) q (length bytes)
  let q' = store room bytes
  ok (
    record {
      dropped_bytes = q'.total_dropped - q.total_dropped;
      dropped_since_drain = q'.dropped_since_drain;
      total_dropped_bytes = q'.total_dropped;
      overflow_started = not q.overflow_notified && q'.overflow_notified;
      pending_bytes = q'.byte_length;
      pending_chunks = live_count q';
    },
    q',
  )

pub clear_pending : RxQueue → RxQueue
clear_pending q = record q { chunks = []; head = 0; byte_length = 0; dropped_since_drain = 0 }

pub drain : RxQueue → DrainResult × RxQueue
drain q = (
  record {
    chunks = if q.head == 0 then q.chunks else drop q.head q.chunks;
    byte_length = q.byte_length;
    dropped_since_drain = q.dropped_since_drain;
  },
  record q { chunks = []; head = 0; byte_length = 0; dropped_since_drain = 0 },
)

pub reset : RxQueue → RxQueue
unfolding clear_pending
reset q = record (clear_pending q) { total_dropped = 0; overflow_notified = false }
