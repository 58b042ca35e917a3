-- ===== src/RxQueue/Newest.antt =====
-- Which bytes the receive buffer keeps, and how much memory it holds.
use bbcom.Base.{
  ℕ, ◌+◌, ◌-◌, ◌*◌, ◌≤◌, ◌<◌, ◌≡◌, refl, sym, ap, ◌∙◌, ◌&&◌, ◌⊎◌, List, [], ◌∷◌, ◌++◌, ok, arith,
  ltb, leb, length, drop, take, append_assoc, append-nil, take-append-drop, length-append,
  Bool-cases, ltb→lt, inl, inr,
}
use bbcom.Base.{length-drop}
use bbcom.RxQueue.{Bytes, RxQueue, EnqueueResult, enqueue}
use bbcom.RxQueue.Policy.{
  concat, total, evict, newest, accept, length-concat, concat-append, evict-suffix, total-append,
}
use bbcom.RxQueue.Window.{IsValid, length-map-some}
use bbcom.RxQueue.Refine.{Enqueued, enqueue_refines}

evict_oversized : (mb mc n : ℕ) (cs : List Bytes) → mb < n → evict mb mc n cs ≡ []
unfolding evict
evict_oversized mb mc n [] h = refl
evict_oversized mb mc n (c ∷ cs) h = ground (arith, evict_oversized mb mc n cs h)

newest_small : (mb : ℕ) (bytes : Bytes) → length bytes ≤ mb → newest mb bytes ≡ bytes
unfolding newest
newest_small mb bytes h =
    let none_lost : length bytes - mb ≡ 0 = omega arith in ap (λ n. drop n bytes) none_lost

-- What the policy keeps is a suffix of what was held and has come.
accept-suffix :
    (mb mc : ℕ) (cs : List Bytes) (bytes : Bytes)
    → (gone : Bytes) × (concat cs ++ bytes ≡ gone ++ concat (accept mb mc cs bytes))
unfolding accept newest
accept-suffix mb mc cs bytes = elim (Bool-cases (ltb mb (length bytes))) [
  | inl big ↦ (
    concat cs ++ take (length bytes - mb) bytes,
    rw (evict_oversized mb mc (length bytes) cs (ltb→lt _ _ big), append-nil)
        (ap (◌++◌ (concat cs)) (sym (take-append-drop (length bytes - mb) bytes))
          ∙ sym (append_assoc (concat cs) _ _)),
  )
  | inr fits ↦
      let (gone, e) = evict-suffix mb mc (length bytes) cs in
      (
        concat gone,
        rw (newest_small mb bytes (ground arith), concat-append, append-nil)
            (ap (λ l. l ++ bytes) (ap concat e ∙ concat-append gone _)
              ∙ append_assoc (concat gone) _ bytes),
      )
]

evict_fitting :
    (mb mc n : ℕ) (cs : List Bytes) → total cs + n ≤ mb → length cs < mc → evict mb mc n cs ≡ cs
unfolding evict
evict_fitting mb mc n [] h k = refl
evict_fitting mb mc n (c ∷ cs) h k = ground arith

length-zero : (xs : Bytes) → length xs ≡ 0 → xs ≡ []
length-zero [] e = refl
length-zero (x ∷ xs) e = absurd (omega arith)

-- A payload that fits costs no byte.
accept_fitting :
    (mb mc : ℕ) (cs : List Bytes) (bytes : Bytes)
    → total cs + length bytes ≤ mb
    → length cs < mc
    → total (accept mb mc cs bytes) ≡ total cs + length bytes
unfolding accept
accept_fitting mb mc cs bytes h k =
    rw (evict_fitting mb mc (length bytes) cs h k, newest_small mb bytes (omega arith))
      (omega (arith, total-append cs (bytes ∷ [])))

lost-or-full :
    (q : RxQueue) (cs : List Bytes) (bytes : Bytes) {r : EnqueueResult} {q' : RxQueue}
    (gone : Bytes)
    → Enqueued q cs bytes r q'
    → r.dropped_bytes ≡ length gone
    → (gone ≡ []) ⊎ ((q.max_bytes < total cs + length bytes) ⊎ (q.max_chunks ≤ length cs))
lost-or-full q cs bytes gone done e =
    elim (Bool-cases (leb (total cs + length bytes) q.max_bytes && ltb (length cs) q.max_chunks)) [
      | inl fits ↦ inl (
          length-zero gone (
            omega (
              arith,
              done.sum,
              e,
              accept_fitting q.max_bytes q.max_chunks cs bytes (ground arith) (ground arith),
            )))
      | inr full ↦ inr (ground arith)
    ]

-- A call of `enqueue` on a valid queue returns, and the queue then holds a suffix of the bytes that
-- it held followed by the payload. `droppedBytes` is the number of the bytes before that suffix,
-- and either there are none, or the payload would have exceeded one of the two limits.
pub enqueue-newest :
    (q : RxQueue) (cs : List Bytes) (bytes : Bytes)
    → IsValid q cs
    → (r : EnqueueResult) × (q' : RxQueue) × (cs' : List Bytes) × (gone : Bytes) × (enqueue q bytes
        ≡ ok (r, q'))
      × IsValid q' cs'
      × (concat cs ++ bytes ≡ gone ++ concat cs')
      × (r.dropped_bytes ≡ length gone)
      × ((gone ≡ []) ⊎ ((q.max_bytes < total cs + length bytes) ⊎ (q.max_chunks ≤ length cs)))
enqueue-newest q cs bytes v =
    let (r, q', run, done) = enqueue_refines q cs bytes v in
    let keep = accept q.max_bytes q.max_chunks cs bytes in
    let (gone, e) = accept-suffix q.max_bytes q.max_chunks cs bytes in
    let count : r.dropped_bytes ≡ length gone = omega (
      arith,
      done.sum,
      ap length e,
      length-append (concat cs) bytes,
      length-append gone (concat keep),
      length-concat cs,
      length-concat keep,
    ) in
    (r, q', keep, gone, run, done.valid, e, count, lost-or-full q cs bytes gone done count)

-- A valid queue has at most twice `maxChunks` slots in its backing array.
pub chunks_within :
    (q : RxQueue) (cs : List Bytes) → IsValid q cs → length q.chunks ≤ 2 * q.max_chunks
chunks_within q cs v = omega (
  arith,
  v.holds.in_array,
  v.compact,
  v.chunks_bounded,
  length-drop q.head q.chunks,
  ap length v.holds.window,
  length-map-some cs,
)
