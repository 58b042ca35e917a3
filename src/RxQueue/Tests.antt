-- ===== src/RxQueue/Tests.antt =====
-- The receive buffer at concrete inputs.
use bbcom.Base.{
  ℕ, ◌+◌, ◌*◌, ◌≤◌, ◌<◌, ◌≡◌, ◌⊎◌, refl, true, false, none, some, List, [], ◌∷◌, ◌++◌, map, ok, err,
  arith, length,
}
use bbcom.RxQueue.{
  Bytes, range_error, RxQueue, EnqueueResult, positive_integer, floor, create, record_drop,
  slot_length, drop_oldest, must_drop, make_room, push_live, store_whole, store, enqueue, drain,
  live_count,
}
use bbcom.RxQueue.Policy.{concat, total}
use bbcom.RxQueue.Window.{IsValid}
use bbcom.RxQueue.Refine.{Enqueued, enqueue_refines}
use bbcom.RxQueue.Newest.{enqueue-newest}
use bbcom.RxQueue.Account.{
  Call, receives, takes, run, run-conserves, drain-IsValid, Rejected, Admits, fresh, create-IsValid,
}
use bbcom.RxQueue.Bounds.{Use, enqueues, drains, clears, resets, use_all, use_all-bounded}
use bbcom.Base.Number.{nan, of_ℕ}

-- One dead slot, then the chunks 1 2 and 3 4 5; at most 6 bytes in 3 chunks.
abbrev busy : RxQueue
busy = record {
  max_bytes = 6;
  max_chunks = 3;
  chunks = none ∷ some (1 ∷ 2 ∷ []) ∷ some (3 ∷ 4 ∷ 5 ∷ []) ∷ [];
  head = 1;
  byte_length = 5;
  dropped_since_drain = 4;
  total_dropped = 9;
  overflow_notified = true;
}

abbrev held : List Bytes
held = (1 ∷ 2 ∷ []) ∷ (3 ∷ 4 ∷ 5 ∷ []) ∷ []

busy-IsValid : IsValid busy held
busy-IsValid = record {
  holds = record { in_array = omega arith; window = refl; counted = refl };
  bytes_positive = omega arith;
  chunks_positive = omega arith;
  bytes_bounded = omega arith;
  chunks_bounded = omega arith;
  compact = omega arith;
}

abbrev after_two : RxQueue
after_two = record busy {
  chunks = some (3 ∷ 4 ∷ 5 ∷ []) ∷ some (6 ∷ 7 ∷ []) ∷ [];
  head = 0;
  byte_length = 5;
  dropped_since_drain = 6;
  total_dropped = 11;
}

-- The oldest chunk goes, and the array is compacted.
enqueue-busy :
    enqueue busy (6 ∷ 7 ∷ [])
    ≡ ok (
      record {
        dropped_bytes = 2;
        dropped_since_drain = 6;
        total_dropped_bytes = 11;
        overflow_started = false;
        pending_bytes = 5;
        pending_chunks = 2;
      },
      after_two,
    )
unfolding enqueue make_room must_drop drop_oldest slot_length record_drop store store_whole
    push_live
enqueue-busy = refl

create_nan : create (of_ℕ 4) nan ≡ err range_error
unfolding create positive_integer floor
create_nan = refl

enqueue-newest_example :
    (r : EnqueueResult) × (q' : RxQueue) × (cs' : List Bytes) × (gone : Bytes) × (enqueue busy
        (6 ∷ 7 ∷ [])
      ≡ ok (r, q'))
    × IsValid q' cs'
    × (concat held ++ 6 ∷ 7 ∷ [] ≡ gone ++ concat cs')
    × (r.dropped_bytes ≡ length gone)
    × ((gone ≡ []) ⊎ ((busy.max_bytes < total held + 2) ⊎ (busy.max_chunks ≤ length held)))
enqueue-newest_example = enqueue-newest busy held (6 ∷ 7 ∷ []) busy-IsValid

enqueue_refines_example :
    (r : EnqueueResult) × (q' : RxQueue) × (enqueue busy (6 ∷ 7 ∷ []) ≡ ok (r, q'))
    × Enqueued busy held (6 ∷ 7 ∷ []) r q'
enqueue_refines_example = enqueue_refines busy held (6 ∷ 7 ∷ []) busy-IsValid

-- Three payloads in two chunks, one of them taken out of a queue that is reset at the end.
abbrev life : List Use
life = enqueues (1 ∷ 2 ∷ []) ∷ enqueues (3 ∷ []) ∷ enqueues (4 ∷ []) ∷ drains ∷ clears ∷ resets ∷ []

made : create (of_ℕ 6) (of_ℕ 2) ≡ ok (fresh 6 2)
unfolding create positive_integer floor
made = refl

use_all-bounded_example :
    (q' : RxQueue) × (m : ℕ) × (n : ℕ) × (use_all life (fresh 6 2) ≡ ok q')
    × Admits (of_ℕ 6) m
    × Admits (of_ℕ 2) n
    × (length q'.chunks ≤ 2 * n)
    × (live_count q' ≤ n)
    × (q'.byte_length ≤ m)
use_all-bounded_example = use_all-bounded (of_ℕ 6) (of_ℕ 2) (fresh 6 2) life made

abbrev history : List Call
history = receives (6 ∷ 7 ∷ []) ∷ takes ∷ receives (8 ∷ []) ∷ []

run-conserves_example :
    (out : List Bytes) × (q' : RxQueue) × (cs' : List Bytes) × (run busy history
      ≡ ok (map some out, q'))
    × IsValid q' cs'
    × (total out + total cs' + q'.total_dropped ≡ 5 + 3 + 9)
run-conserves_example = run-conserves history busy held busy-IsValid

drain-IsValid_example :
    ((drain busy).0.chunks ≡ map some held)
    × ((drain busy).0.byte_length ≡ total held)
    × ((drain busy).0.dropped_since_drain ≡ 4)
    × ((drain busy).1.dropped_since_drain ≡ 0)
    × ((drain busy).1.total_dropped ≡ 9)
    × IsValid (drain busy).1 []
drain-IsValid_example = drain-IsValid busy held busy-IsValid

create-IsValid_example :
    ((Rejected (of_ℕ 4) ⊎ Rejected nan) × (create (of_ℕ 4) nan ≡ err range_error))
    ⊎ ((m : ℕ) × (n : ℕ) × Admits (of_ℕ 4) m
        × Admits nan n
        × (create (of_ℕ 4) nan ≡ ok (fresh m n))
        × IsValid (fresh m n) [])
create-IsValid_example = create-IsValid (of_ℕ 4) nan
