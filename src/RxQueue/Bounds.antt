-- ===== src/RxQueue/Bounds.antt =====
-- The memory that the receive buffer of src/lib/serial-rx-queue.ts holds over its life.
use bbcom.Base.{
  ℕ, ◌*◌, ◌≤◌, ◌≡◌, refl, sym, ap, ◌∙◌, inl, inr, length-drop, ok-injective, List, [], ◌∷◌, Result,
  ok, ◌>>=◌, arith, length,
}
use bbcom.Base.Number.{Number}
use bbcom.RxQueue.{
  Bytes, Failure, RxQueue, live_count, create, enqueue, drain, clear_pending, reset,
}
use bbcom.RxQueue.Window.{IsValid, length-map-some}
use bbcom.RxQueue.Refine.{enqueue_refines}
use bbcom.RxQueue.Newest.{chunks_within}
use bbcom.RxQueue.Account.{Admits, fresh, create-IsValid, drain-IsValid, reset-IsValid}

-- A call of a method that changes the queue.
pub data Use : Type 0 where
  enqueues : Bytes → Use
  drains : Use
  clears : Use
  resets : Use

unfoldable pub use_once : Use → RxQueue → Result Failure RxQueue
use_once (enqueues bytes) q = enqueue q bytes >>= λ (r, q'). ok q'
use_once drains q = ok (drain q).1
use_once clears q = ok (clear_pending q)
use_once resets q = ok (reset q)

unfoldable pub use_all : List Use → RxQueue → Result Failure RxQueue
unfolding use_once
use_all [] q = ok q
use_all (u ∷ uses) q = use_once u q >>= use_all uses

-- A valid queue with the limits that it was made with.
abbrev Keeps : RxQueue → RxQueue → Type 0
Keeps q q' =
    ((cs : List Bytes) × IsValid q' cs)
    × (q'.max_bytes ≡ q.max_bytes)
    × (q'.max_chunks ≡ q.max_chunks)

clear_pending-IsValid :
    (q : RxQueue) (cs : List Bytes) → IsValid q cs → IsValid (clear_pending q) []
unfolding clear_pending
clear_pending-IsValid q cs v = ground (arith, v)

use_once-Keeps :
    (u : Use) (q : RxQueue) (cs : List Bytes)
    → IsValid q cs
    → (q' : RxQueue) × (use_once u q ≡ ok q') × Keeps q q'
unfolding use_once clear_pending drain reset
use_once-Keeps (enqueues bytes) q cs v =
    let (r, q', e, done) = enqueue_refines q cs bytes v in
    (q', rw e, ((_, done.valid), done.counts.max_bytes, done.counts.max_chunks))
use_once-Keeps drains q cs v =
    let (_, _, _, _, _, v') = drain-IsValid q cs v in ((drain q).1, refl, (([], v'), refl, refl))
use_once-Keeps clears q cs v =
    (clear_pending q, refl, (([], clear_pending-IsValid q cs v), refl, refl))
use_once-Keeps resets q cs v =
    let (v', _, _) = reset-IsValid q cs v in (reset q, refl, (([], v'), refl, refl))

use_all-Keeps :
    (uses : List Use) (q : RxQueue) (cs : List Bytes)
    → IsValid q cs
    → (q' : RxQueue) × (use_all uses q ≡ ok q') × Keeps q q'
unfolding use_all
use_all-Keeps [] q cs v = (q, refl, ((cs, v), refl, refl))
use_all-Keeps (u ∷ uses) q cs v =
    let (q₁, e, ((cs₁, v₁), b, c)) = use_once-Keeps u q cs v in
    let (q', e', (kept, b', c')) = use_all-Keeps uses q₁ cs₁ v₁ in
    (q', rw e e', (kept, b' ∙ b, c' ∙ c))

live_count-bounded : (q : RxQueue) (cs : List Bytes) → IsValid q cs → live_count q ≤ q.max_chunks
live_count-bounded q cs v = omega (
  arith,
  v.chunks_bounded,
  length-drop q.head q.chunks,
  ap length v.holds.window,
  length-map-some cs,
)

-- If the constructor returns a queue, its limits are finite with floors of at least 1, and any calls of
-- `enqueue`, `drain`, `clearPending` and `reset` on it return without a throw; behind them the backing
-- array has at most twice as many slots as the floor of the limit for chunks, at most that floor of live
-- chunks, and at most the floor of the limit for bytes is counted.
pub use_all-bounded :
    (b c : Number) (q : RxQueue) (uses : List Use)
    → create b c ≡ ok q
    → (q' : RxQueue) × (m : ℕ) × (n : ℕ) × (use_all uses q ≡ ok q')
      × Admits b m
      × Admits c n
      × (length q'.chunks ≤ 2 * n)
      × (live_count q' ≤ n)
      × (q'.byte_length ≤ m)
use_all-bounded b c q uses made = elim (create-IsValid b c) [
  | inl (_, thrown) ↦ cc
  | inr (m, n, hm, hn, e, v) ↦
      let same : q ≡ fresh m n = ok-injective (sym made ∙ e) in
      let (q', done, ((cs, v'), mb, mc)) = use_all-Keeps uses (fresh m n) [] v in
      (
        q',
        m,
        n,
        rw same done,
        hm,
        hn,
        omega (arith, chunks_within q' cs v', mc),
        omega (arith, live_count-bounded q' cs v', mc),
        omega (arith, v'.bytes_bounded, v'.holds.counted, mb),
      )
]
