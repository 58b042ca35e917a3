-- ===== src/RxQueue/Account.antt =====
-- The byte accounts of the receive buffer over a whole history of calls, and its construction.
use bbcom.Base.{
  ℕ, ◌+◌, ◌≤◌, ◌≡◌, ◌⊎◌, inl, inr, refl, sym, ap, Bool, true, false, Option, some, List, [], ◌∷◌,
  ◌++◌, map, Result, ok, err, ◌>>=◌, arith, ltb, ◌==◌, if◌then◌else◌, length, drop, Bool-cases,
  ltb-false→le, zero, suc,
}
use bbcom.Base.Number.{Number, is_finite, below, nan, infinity, minus_infinity, finite, pos, negsuc}
use mathlib.Core.List.{map-append}
use bbcom.RxQueue.{
  Bytes, Failure, range_error, RxQueue, positive_integer, create, enqueue, drain, clear_pending,
  reset, floor,
}
use bbcom.RxQueue.Policy.{total, total-append}
use bbcom.RxQueue.Window.{IsValid}
use bbcom.RxQueue.Refine.{enqueue_refines}

abbrev pub Rejected : Number → Type 0
Rejected v = (is_finite v ≡ false) ⊎ (below v 1 ≡ true)

-- A limit that is let through: finite and at least 1, of floor `n`.
abbrev pub Admits : Number → ℕ → Type 0
Admits v n = (fraction : Bool) × (v ≡ finite (pos n) fraction) × (1 ≤ n)

positive_integer-cases :
    (v : Number)
    → (Rejected v × (positive_integer v ≡ err range_error))
      ⊎ ((n : ℕ) × (positive_integer v ≡ ok n) × Admits v n)
unfolding positive_integer floor
positive_integer-cases nan = inl (inl refl, refl)
positive_integer-cases infinity = inl (inl refl, refl)
positive_integer-cases minus_infinity = inl (inl refl, refl)
positive_integer-cases (finite (negsuc n) f) = inl (inr refl, refl)
positive_integer-cases (finite (pos n) f) = elim (Bool-cases (ltb n 1)) [
  | inl low ↦ inl (inr low, rw low)
  | inr high ↦ inr (n, rw high, (f, refl, omega (arith, ltb-false→le n 1 high)))
]

abbrev pub fresh : ℕ → ℕ → RxQueue
fresh b c = record {
  max_bytes = b;
  max_chunks = c;
  chunks = [];
  head = 0;
  byte_length = 0;
  dropped_since_drain = 0;
  total_dropped = 0;
  overflow_notified = false;
}

empty-IsValid : (m n : ℕ) → 1 ≤ m → 1 ≤ n → IsValid (fresh m n) []
empty-IsValid m n hm hn = ground arith

-- The constructor throws a RangeError if one of the limits is not finite or is below 1. Otherwise both
-- limits are finite and at least 1, and it returns the empty queue of their floors, which is valid.
pub create-IsValid :
    (b c : Number)
    → ((Rejected b ⊎ Rejected c) × (create b c ≡ err range_error))
      ⊎ ((m : ℕ) × (n : ℕ) × Admits b m
          × Admits c n
          × (create b c ≡ ok (fresh m n))
          × IsValid (fresh m n) [])
unfolding create
create-IsValid b c = elim (positive_integer-cases b) [
  | inl (bad, e) ↦ inl (inl bad, rw e)
  | inr (m, e, hm) ↦ elim (positive_integer-cases c) [
    | inl (bad, e') ↦ inl (inr bad, rw (e, e'))
    | inr (n, e', hn) ↦ inr (m, n, hm, hn, rw (e, e'), empty-IsValid m n hm.2 hn.2)
  ]
]

-- `drain` hands out exactly the chunks held, with their byte count, and leaves a valid empty queue;
-- the count of the bytes dropped since the last drain is reported and cleared.
pub drain-IsValid :
    (q : RxQueue) (cs : List Bytes)
    → IsValid q cs
    → ((drain q).0.chunks ≡ map some cs)
      × ((drain q).0.byte_length ≡ total cs)
      × ((drain q).0.dropped_since_drain ≡ q.dropped_since_drain)
      × ((drain q).1.dropped_since_drain ≡ 0)
      × ((drain q).1.total_dropped ≡ q.total_dropped)
      × IsValid (drain q).1 []
unfolding drain
drain-IsValid q cs v =
    (window_at q.head v.holds.window, v.holds.counted, refl, refl, refl, ground (arith, v))
  where
    window_at :
        (h : ℕ)
        → drop h q.chunks ≡ map some cs
        → (if h == 0 then q.chunks else drop h q.chunks) ≡ map some cs
    window_at zero e = e
    window_at (suc h) e = ground arith

-- `reset` empties the queue, and forgets the drops that it has counted and notified.
pub reset-IsValid :
    (q : RxQueue) (cs : List Bytes)
    → IsValid q cs
    → IsValid (reset q) [] × ((reset q).total_dropped ≡ 0) × ((reset q).overflow_notified ≡ false)
unfolding reset clear_pending
reset-IsValid q cs v = ground (arith, v)

-- The calls of a connection: a payload comes, or the pending chunks are taken.
pub data Call : Type 0 where
  receives : Bytes → Call
  takes : Call

abbrev pub received : List Call → ℕ
received [] = 0
received (receives b ∷ calls) = length b + received calls
received (takes ∷ calls) = received calls

-- The chunks handed out, in order, and the queue at the end.
unfoldable pub run : RxQueue → List Call → Result Failure (List (Option Bytes) × RxQueue)
run q [] = ok ([], q)
run q (receives b ∷ calls) = enqueue q b >>= λ (r, q'). run q' calls
run q (takes ∷ calls) = run (drain q).1 calls >>= λ (out, q'). ok ((drain q).0.chunks ++ out, q')

-- From a valid queue no history of calls fails, and no byte is lost from the account: the bytes held
-- at first and those received are those handed out, those pending, and those that the counter
-- `totalDroppedBytes` has gained.
pub run-conserves :
    (calls : List Call) (q : RxQueue) (cs : List Bytes)
    → IsValid q cs
    → (out : List Bytes) × (q' : RxQueue) × (cs' : List Bytes) × (run q calls
        ≡ ok (map some out, q'))
      × IsValid q' cs'
      × (total out + total cs' + q'.total_dropped ≡ total cs + received calls + q.total_dropped)
unfolding run
run-conserves [] q cs v = ([], q, cs, refl, v, omega arith)
run-conserves (receives b ∷ calls) q cs v =
    let (r, q₁, step, done) = enqueue_refines q cs b v in
    let (out, q', cs', e, v', sum) = run-conserves calls q₁ _ done.valid in
    (out, q', cs', rw (step, e), v', omega (arith, sum, done.sum, done.counts.in_total))
run-conserves (takes ∷ calls) q cs v =
    let (chunks, _, _, _, same, v₁) = drain-IsValid q cs v in
    let (out, q', cs', e, v', sum) = run-conserves calls (drain q).1 [] v₁ in
    (
      cs ++ out,
      q',
      cs',
      rw (e, chunks) (ap (λ l. ok (l, q')) (sym (map-append some cs out))),
      v',
      omega (arith, sum, same, total-append cs out),
    )
