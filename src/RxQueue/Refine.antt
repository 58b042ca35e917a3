-- ===== src/RxQueue/Refine.antt =====
-- The class of src/lib/serial-rx-queue.ts against the policy on lists of chunks.
use bbcom.Base.{
  ℕ, ◌+◌, ◌-◌, ◌≤◌, ◌<◌, ◌≡◌, refl, sym, ap, ◌∙◌, ◌⊎◌, inl, inr, Bool, true, false, not, ◌&&◌, ◌||◌,
  none, some, List, [], ◌∷◌, ◌++◌, map, Result, ok, arith, ltb, leb, if◌then◌else◌, length,
  get_elem?, set, drop, length-append, length-drop, length-set, drop-set, drop-append, Bool-cases,
  ltb→lt, subst,
}
use native.Mathlib.Numerals.{add-one}
use bbcom.RxQueue.{
  Bytes, Failure, RxQueue, EnqueueResult, live_count, record_drop, slot_length, drop_oldest,
  must_drop, make_room, push_live, store_newest, store_whole, store, enqueue,
}
use bbcom.RxQueue.Policy.{total, evict, newest, accept, total-append, evict_fits, length-newest-le}
use bbcom.RxQueue.Window.{
  Holds, IsValid, get_elem?-drop, drop-suc, length-map-some, map-some-snoc, live_count-Holds,
}

-- `q'` has the limits of `q`, and its counters say that `n` more bytes were dropped.
pub record Counts (q : RxQueue) (n : ℕ) (q' : RxQueue) : Type 0 where
  pub max_bytes : q'.max_bytes ≡ q.max_bytes
  pub max_chunks : q'.max_chunks ≡ q.max_chunks
  pub since_drain : q'.dropped_since_drain ≡ q.dropped_since_drain + n
  pub in_total : q'.total_dropped ≡ q.total_dropped + n
  pub notified : q'.overflow_notified ≡ (q.overflow_notified || ltb 0 n)

Counts-trans :
    {p q r : RxQueue} (m n k : ℕ) → Counts p m q → Counts q n r → m + n ≡ k → Counts p k r
Counts-trans {p} m n k a b e = record {
  max_bytes = b.max_bytes ∙ a.max_bytes;
  max_chunks = b.max_chunks ∙ a.max_chunks;
  since_drain = omega (arith, a.since_drain, b.since_drain);
  in_total = omega (arith, a.in_total, b.in_total);
  notified = ground (arith, a.notified, b.notified);
}

record_drop-Counts : (q : RxQueue) (n : ℕ) → Counts q n (record_drop q n)
unfolding record_drop
record_drop-Counts q n = ground arith

record_drop-Holds :
    (q : RxQueue) (n : ℕ) {cs : List Bytes} → Holds q cs → Holds (record_drop q n) cs
unfolding record_drop
record_drop-Holds q n h = record {
  in_array = ground (arith, h.in_array);
  window = ground (arith, h.window);
  counted = ground (arith, h.counted);
}

-- The queue with its oldest slot, of `n` bytes, released.
abbrev release_oldest : RxQueue → ℕ → RxQueue
release_oldest q n = record q {
  chunks = set q.chunks q.head none;
  head = q.head + 1;
  byte_length = q.byte_length - n;
}

release_oldest-Holds :
    (q : RxQueue) (c : Bytes) (cs : List Bytes)
    → Holds q (c ∷ cs)
    → Holds (release_oldest q (length c)) cs
release_oldest-Holds q c cs h = record {
  in_array = omega (
    arith,
    length-set q.chunks q.head none,
    ap length h.window,
    length-map-some cs,
    length-drop q.head q.chunks,
  );
  window =
      rw add-one
        (drop-set q.chunks q.head none ∙ drop-suc q.head q.chunks (some c) (map some cs) h.window);
  counted = omega (arith, h.counted);
}

-- A round of the loop gives up the oldest chunk, and cannot fail while one is held.
drop_oldest_lem :
    (q : RxQueue) (c : Bytes) (cs : List Bytes)
    → Holds q (c ∷ cs)
    → (q' : RxQueue) × (drop_oldest q ≡ ok q') × Holds q' cs × Counts q (length c) q'
unfolding drop_oldest slot_length
drop_oldest_lem q c cs h = (
  record_drop (release_oldest q (length c)) (length c),
  rw found,
  record_drop-Holds _ (length c) (release_oldest-Holds q c cs h),
  Counts-trans 0 (length c) (length c) (kept (length c)) (record_drop-Counts _ (length c))
      (omega arith),
)
  where
    found : get_elem? q.chunks q.head ≡ some (some c)
    found = get_elem?-drop q.head q.chunks (some c) (map some cs) h.window

    kept : (n : ℕ) → Counts q 0 (release_oldest q n)
    kept n = ground arith

-- The test of the loop is the policy's.
must_drop-evicts :
    (mb mc : ℕ) (q : RxQueue) (n : ℕ) (c : Bytes) (cs : List Bytes)
    → q.max_bytes ≡ mb
    → q.max_chunks ≡ mc
    → Holds q (c ∷ cs)
    → must_drop q n ≡ (ltb mb (total (c ∷ cs) + n) || leb mc (length (c ∷ cs)))
unfolding must_drop
must_drop-evicts mb mc q n c cs eb ec h = ground (arith, live_count-Holds h)

-- `r` is a queue that holds `keep`, and counts what `keep` lacks of `cs` as dropped.
abbrev Roomy : RxQueue → List Bytes → List Bytes → Result Failure RxQueue → Type 0
Roomy q cs keep r =
    (k : ℕ) × (q' : RxQueue) × (r ≡ ok q')
    × Holds q' keep
    × Counts q k q'
    × (k + total keep ≡ total cs)

Roomy-if :
    (q : RxQueue) (cs : List Bytes) {keep keep' : List Bytes} {r r' : Result Failure RxQueue}
    (b : Bool)
    → Roomy q cs keep r
    → Roomy q cs keep' r'
    → Roomy q cs (if b then keep else keep') (if b then r else r')
Roomy-if q cs true x y = x
Roomy-if q cs false x y = y

Roomy-cons :
    (q q' : RxQueue) (c : Bytes) (cs : List Bytes) {keep : List Bytes} {r : Result Failure RxQueue}
    → Counts q (length c) q'
    → Roomy q' cs keep r
    → Roomy q (c ∷ cs) keep r
Roomy-cons q q' c cs counts (k, r, run, h, counts', sum) =
    (length c + k, r, run, h, Counts-trans (length c) k _ counts counts' refl, omega arith)

-- The loop ends, without an error, with the chunks that the policy keeps.
make_room_lem :
    (mb mc n : ℕ) (cs : List Bytes) (q : RxQueue)
    → q.max_bytes ≡ mb
    → q.max_chunks ≡ mc
    → Holds q cs
    → Roomy q cs (evict mb mc n cs) (make_room (length cs) q n)
unfolding make_room evict
make_room_lem mb mc n [] q eb ec h = (0, q, refl, h, ground arith, omega arith)
make_room_lem mb mc n (c ∷ cs) q eb ec h =
    let (q', step, h', counts) = drop_oldest_lem q c cs h in
    rw (must_drop-evicts mb mc q n c cs eb ec h) (
      Roomy-if q (c ∷ cs) (ltb mb (total (c ∷ cs) + n) || leb mc (length (c ∷ cs)))
        (Roomy-cons q q' c cs counts (
          rw step
            (make_room_lem mb mc n cs q' (counts.max_bytes ∙ eb) (counts.max_chunks ∙ ec) h')))
        (0, q, refl, h, ground arith, omega arith))

record Pushed (q q' : RxQueue) (c : Bytes) (cs : List Bytes) : Type 0 where
  in_array : q'.head ≤ length q'.chunks
  window : drop q'.head q'.chunks ≡ map some (cs ++ c ∷ [])
  compact : q'.head + q'.head ≤ length q'.chunks
  same_bytes : q'.byte_length ≡ q.byte_length
  counts : Counts q 0 q'

-- Pushing appends to the window, and leaves at most half of the array dead.
push_live_lem :
    (q : RxQueue) (c : Bytes) {cs : List Bytes} → Holds q cs → Pushed q (push_live q c) c cs
unfolding push_live
push_live_lem q c {cs} h =
    elim (Bool-cases (ltb 0 q.head && leb (length q.chunks) (q.head + q.head))) [
      | inl b ↦ rw b (record {
        in_array = omega arith;
        window = ap (λ l. l ++ some c ∷ []) h.window ∙ sym (map-some-snoc cs c);
        compact = omega arith;
        same_bytes = refl;
        counts = ground arith;
      })
      | inr b ↦ rw b (record {
        in_array = omega (arith, length-append q.chunks (some c ∷ []), h.in_array);
        window =
            drop-append q.head q.chunks (some c ∷ []) h.in_array
            ∙ ap (λ l. l ++ some c ∷ []) h.window
            ∙ sym (map-some-snoc cs c);
        compact = ground (arith, length-append q.chunks (some c ∷ []));
        same_bytes = refl;
        counts = ground arith;
      })
    ]

record Stored (q q' : RxQueue) (c : Bytes) (cs : List Bytes) (n : ℕ) : Type 0 where
  holds : Holds q' (cs ++ c ∷ [])
  compact : q'.head + q'.head ≤ length q'.chunks
  counts : Counts q n q'

-- Pushing a chunk on `p`, which counts `n` dropped bytes more than `q`, and counting its bytes.
push_counted :
    (q p : RxQueue) (n : ℕ) (c : Bytes) (cs : List Bytes)
    → Counts q n p
    → Holds p cs
    → let p' = push_live p c in
      Stored q (record p' { byte_length = p'.byte_length + length c }) c cs n
push_counted q p n c cs counts h =
    let pushed = push_live_lem p c h in
    let all = Counts-trans n 0 n counts pushed.counts (omega arith) in
    record {
      holds = record {
        in_array = pushed.in_array;
        window = pushed.window;
        counted = omega (arith, total-append cs (c ∷ []), h.counted, pushed.same_bytes);
      };
      compact = pushed.compact;
      counts = record {
        max_bytes = all.max_bytes;
        max_chunks = all.max_chunks;
        since_drain = all.since_drain;
        in_total = all.in_total;
        notified = all.notified;
      };
    }

-- Storing appends the newest bytes of the payload, and counts the others as dropped.
store_lem :
    (q : RxQueue) (bytes : Bytes) (cs : List Bytes)
    → Holds q cs
    → Stored q (store q bytes) (newest q.max_bytes bytes) cs (length bytes - q.max_bytes)
unfolding store store_newest store_whole newest
store_lem q bytes cs h = elim (Bool-cases (ltb q.max_bytes (length bytes))) [
  | inl big ↦
      rw (big, store)
        (push_counted q _ _ retained cs
          (subst (λ n. Counts q n (record_drop q (length bytes - length retained)))
            (omega (arith, length-drop (length bytes - q.max_bytes) bytes, ltb→lt _ _ big))
            (record_drop-Counts q (length bytes - length retained)))
          (record_drop-Holds q _ h))
  | inr fits ↦ rw (fits, store, none_lost fits) (push_counted q q 0 bytes cs (ground arith) h)
]
  where
    retained : Bytes
    retained = drop (length bytes - q.max_bytes) bytes

    none_lost : ltb q.max_bytes (length bytes) ≡ false → length bytes - q.max_bytes ≡ 0
    none_lost fits = ground arith

-- What `enqueue q bytes` does when it returns `r` and leaves `q'`.
pub record Enqueued (q : RxQueue) (cs : List Bytes) (bytes : Bytes) (r : EnqueueResult)
    (q' : RxQueue) : Type 0 where
  pub valid : IsValid q' (accept q.max_bytes q.max_chunks cs bytes)
  pub counts : Counts q r.dropped_bytes q'
  pub sum :
      r.dropped_bytes + total (accept q.max_bytes q.max_chunks cs bytes) ≡ total cs + length bytes
  pub since_drain : r.dropped_since_drain ≡ q'.dropped_since_drain
  pub in_total : r.total_dropped_bytes ≡ q'.total_dropped
  pub started : r.overflow_started ≡ (not q.overflow_notified && ltb 0 r.dropped_bytes)
  pub pending_bytes : r.pending_bytes ≡ total (accept q.max_bytes q.max_chunks cs bytes)
  pub pending_chunks : r.pending_chunks ≡ length (accept q.max_bytes q.max_chunks cs bytes)

abbrev accepted_result : RxQueue → RxQueue → EnqueueResult
accepted_result q q' = record {
  dropped_bytes = q'.total_dropped - q.total_dropped;
  dropped_since_drain = q'.dropped_since_drain;
  total_dropped_bytes = q'.total_dropped;
  overflow_started = not q.overflow_notified && q'.overflow_notified;
  pending_bytes = q'.byte_length;
  pending_chunks = live_count q';
}

-- The accepted chunks stay within both limits.
accept_bounds :
    (mb mc : ℕ) (cs : List Bytes) (bytes : Bytes)
    → 1 ≤ mb
    → 1 ≤ mc
    → (total (accept mb mc cs bytes) ≤ mb) × (length (accept mb mc cs bytes) ≤ mc)
unfolding accept newest
accept_bounds mb mc cs bytes hb hc = omega (
  arith,
  evict-nil-or-fits,
  total-append (evict mb mc (length bytes) cs) (newest mb bytes ∷ []),
  length-append (evict mb mc (length bytes) cs) (newest mb bytes ∷ []),
  length-newest-le mb bytes,
  length-drop (length bytes - mb) bytes,
)
  where
    evict-nil-or-fits :
        ((total (evict mb mc (length bytes) cs) ≡ 0) × (length (evict mb mc (length bytes) cs) ≡ 0))
        ⊎ ((total (evict mb mc (length bytes) cs) + length bytes ≤ mb)
            × (length (evict mb mc (length bytes) cs) < mc))
    evict-nil-or-fits = elim (evict_fits mb mc (length bytes) cs) [
      | inl e ↦ inl (ap total e, ap length e)
      | inr f ↦ inr f
    ]

accepted_lem :
    (q q' : RxQueue) (cs : List Bytes) (bytes : Bytes) (n : ℕ)
    → IsValid q cs
    → Holds q' (accept q.max_bytes q.max_chunks cs bytes)
    → q'.head + q'.head ≤ length q'.chunks
    → Counts q n q'
    → n + total (accept q.max_bytes q.max_chunks cs bytes) ≡ total cs + length bytes
    → Enqueued q cs bytes (accepted_result q q') q'
accepted_lem q q' cs bytes n v h compact counts sum =
    let bounds =
      accept_bounds q.max_bytes q.max_chunks cs bytes v.bytes_positive v.chunks_positive in
    let same : q'.total_dropped - q.total_dropped ≡ n = omega (arith, counts.in_total) in
    record {
      valid = record {
        holds = h;
        bytes_positive = omega (arith, counts.max_bytes);
        chunks_positive = omega (arith, counts.max_chunks);
        bytes_bounded = omega (arith, counts.max_bytes, bounds);
        chunks_bounded = omega (arith, counts.max_chunks, bounds);
        compact = compact;
      };
      counts = subst (λ k. Counts q k q') (sym same) counts;
      sum = omega (arith, same);
      since_drain = refl;
      in_total = refl;
      started =
          subst
            (λ k.
              (not q.overflow_notified && q'.overflow_notified)
              ≡ (not q.overflow_notified && ltb 0 k))
            (sym same) (ground (arith, counts.notified));
      pending_bytes = h.counted;
      pending_chunks = live_count-Holds h;
    }

-- Every call of `enqueue` on a valid queue returns, and does what the policy says.
pub enqueue_refines :
    (q : RxQueue) (cs : List Bytes) (bytes : Bytes)
    → IsValid q cs
    → (r : EnqueueResult) × (q' : RxQueue) × (enqueue q bytes ≡ ok (r, q'))
      × Enqueued q cs bytes r q'
unfolding enqueue accept newest
enqueue_refines q cs bytes v =
    let (k, room, run, h, counts, sum) =
      make_room_lem q.max_bytes q.max_chunks (length bytes) cs q refl refl v.holds in
    let keep = evict q.max_bytes q.max_chunks (length bytes) cs in
    let stored =
      subst (λ m. Stored room (store room bytes) (newest m bytes) keep (length bytes - m))
        counts.max_bytes (store_lem room bytes keep h) in
    let n = k + (length bytes - q.max_bytes) in
    (
      accepted_result q (store room bytes),
      store room bytes,
      rw (live_count-Holds v.holds, run),
      accepted_lem q (store room bytes) cs bytes n v stored.holds stored.compact
          (Counts-trans k (length bytes - q.max_bytes) n counts stored.counts refl)
          (omega (
            arith,
            sum,
            total-append keep (newest q.max_bytes bytes ∷ []),
            length-drop (length bytes - q.max_bytes) bytes,
          )),
    )
