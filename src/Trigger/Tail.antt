-- ===== src/Trigger/Tail.antt =====
-- The rolling tails of src/lib/trigger-engine.ts: what is left of a stream is enough to find a
-- pattern that ends in the next chunk.
use bbcom.Base.{
  ℕ, ◌+◌, ◌-◌, ◌≤◌, ◌≡◌, refl, ap, ap₂, sym, subst, ◌∙◌, false, List, [], ◌∷◌, ◌++◌, append_assoc,
  append-nil, arith, ltb, ◌==◌, length, take, drop, length-append, length-drop, drop-nil,
  drop-append, drop-drop, take-append-drop,
}
use bbcom.Base.Text.{Text}
use bbcom.Base.Sort.{if-both}
use bbcom.Trigger.Hex.{Bytes}
use bbcom.Trigger.Search.{Occurs}
use bbcom.Trigger.{
  Trigger, TextDecoder, Engine, keep_last, limits_from, new_engine, feed, feed_checked,
}

module _ {A : Type 0} where
  pub keep_last-drop : (k : ℕ) (s : List A) → keep_last k s ≡ drop (length s - k) s
  unfolding keep_last
  keep_last-drop k s =
      if-both (λ l. l ≡ drop (length s - k) s) (ltb k (length s)) (drop (length s - k) s) s
        (λ e. refl) (λ e. ap (λ n. drop n s) (none_over e))
    where
      none_over : ltb k (length s) ≡ false → 0 ≡ length s - k
      none_over e = ground arith

  keep_last-nil : (k : ℕ) → keep_last {A = A} k [] ≡ []
  keep_last-nil k = keep_last-drop k [] ∙ drop-nil (length {A = A} [] - k)

  pub length-keep_last : (k : ℕ) (s : List A) → length (keep_last k s) ≤ k
  length-keep_last k s = omega (arith, ap length (keep_last-drop k s), length-drop (length s - k) s)

  -- The last items of a list and of what is appended to it are those behind a place.
  keep_last-behind : (k : ℕ) (s c : List A) → keep_last k s ++ c ≡ drop (length s - k) (s ++ c)
  keep_last-behind k s c =
      ap (λ l. l ++ c) (keep_last-drop k s) ∙ sym (drop-append (length s - k) s c (omega arith))

  -- Dropping at every chunk is dropping once.
  keep_last-append :
      (k : ℕ) (s c : List A) → keep_last k (keep_last k s ++ c) ≡ keep_last k (s ++ c)
  keep_last-append k s c =
      ap (keep_last k) (keep_last-behind k s c)
      ∙ keep_last-drop k (drop (length s - k) (s ++ c))
      ∙ drop-drop (length (drop (length s - k) (s ++ c)) - k) (length s - k) (s ++ c)
      ∙ ap (λ n. drop n (s ++ c)) same
      ∙ sym (keep_last-drop k (s ++ c))
    where
      same : length s - k + (length (drop (length s - k) (s ++ c)) - k) ≡ length (s ++ c) - k
      same = omega (arith, length-drop (length s - k) (s ++ c), length-append s c)

-- The pattern stands in the last `size` items.
abbrev pub OccursLate : ℕ → List ℕ → List ℕ → Type 0
OccursLate size haystack needle =
    (pre : List ℕ) × (post : List ℕ) × (haystack ≡ pre ++ (needle ++ post))
    × (length needle + length post ≤ size)

pub window-Occurs :
    (k : ℕ) (s c needle : List ℕ)
    → Occurs (keep_last k s ++ c) needle
    → OccursLate (k + length c) (s ++ c) needle
window-Occurs k s c needle (pre, post, e) =
    let d = length s - k in
    let tail : drop d (s ++ c) ≡ pre ++ (needle ++ post) = sym (keep_last-behind k s c) ∙ e in
    (
      take d (s ++ c) ++ pre,
      post,
      sym (take-append-drop d (s ++ c))
          ∙ ap (λ l. take d (s ++ c) ++ l) tail
          ∙ sym (append_assoc (take d (s ++ c)) pre (needle ++ post)),
      omega (
        arith,
        ap length tail,
        length-drop d (s ++ c),
        length-append s c,
        length-append pre (needle ++ post),
        length-append needle post,
      ),
    )

pub window-OccursLate :
    (k : ℕ) (s c needle : List ℕ)
    → OccursLate (k + length c) (s ++ c) needle
    → Occurs (keep_last k s ++ c) needle
window-OccursLate k s c needle (pre, post, e, h) =
    let d = length s - k in
    let late : d ≤ length pre = omega (
      arith,
      ap length e,
      length-append s c,
      length-append pre (needle ++ post),
      length-append needle post,
    ) in
    (
      drop d pre,
      post,
      keep_last-behind k s c ∙ ap (drop d) e ∙ drop-append d pre (needle ++ post) late,
    )

-- The chunks of a history, each with the time of its `feed`.
abbrev pub Chunks : Type 0
Chunks = List (ℕ × Bytes)

abbrev pub bytes_of : Chunks → Bytes
bytes_of [] = []
bytes_of ((now, bytes) ∷ chunks) = bytes ++ bytes_of chunks

module _ (decoder : TextDecoder) where
  open decoder use {State, initial, decode}

  abbrev pub feed_chunks : Chunks → Engine decoder → Engine decoder
  feed_chunks [] e = e
  feed_chunks ((now, bytes) ∷ chunks) e = feed_chunks chunks (feed decoder now bytes e).1

  -- The text of the chunks and the decoder behind them.
  abbrev pub decode_chunks : State → Chunks → Text × State
  decode_chunks st [] = ([], st)
  decode_chunks st ((now, bytes) ∷ chunks) =
      let (said, st') = decode st bytes in
      let (more, st'') = decode_chunks st' chunks in (said ++ more, st'')

  -- The tails are the last parts of the stream `s` and of its text `u`.
  pub record IsTail (e : Engine decoder) (ts : List Trigger) (max_byte max_text : ℕ) (s : Bytes)
      (u : Text) (st : State) : Type 0 where
    pub bytes : e.byte_tail ≡ keep_last (max_byte + 1) s
    pub said : e.text_tail ≡ keep_last (max_text + 1) u
    pub state : e.text_decoder ≡ st
    pub set : e.triggers ≡ ts
    pub limit_byte : e.max_byte_pattern_len ≡ max_byte
    pub limit_text : e.max_text_pattern_len ≡ max_text

  feed-IsTail :
      (now : ℕ) (chunk : Bytes) (e : Engine decoder) (ts : List Trigger) (mb mt : ℕ) (s : Bytes)
      (u : Text) (st : State)
      → 1 ≤ length ts
      → IsTail e ts mb mt s u st
      → IsTail
          (feed decoder now chunk e).1
          ts
          mb
          mt
          (s ++ chunk)
          (u ++ (decode st chunk).0)
          (decode st chunk).1
  unfolding feed feed_checked
  feed-IsTail now chunk e ts mb mt s u st n h =
      if-both
        (λ r. IsTail (r.1) ts mb mt (s ++ chunk) (u ++ (decode st chunk).0) (decode st chunk).1)
        (length e.triggers == 0) ([], e) (feed_checked decoder now chunk e)
        (λ none_left. absurd (ground (arith, ap length h.set)))
        (λ some_left. record {
          bytes =
              ap₂ (λ m l. keep_last (m + 1) (l ++ chunk)) h.limit_byte h.bytes
              ∙ keep_last-append (mb + 1) s chunk;
          said =
              ap₂ (λ m l. keep_last (m + 1) (l ++ (decode e.text_decoder chunk).0)) h.limit_text
                h.said
              ∙ ap (λ k. keep_last (mt + 1) (keep_last (mt + 1) u ++ (decode k chunk).0)) h.state
              ∙ keep_last-append (mt + 1) u ((decode st chunk).0);
          state = ap (λ k. (decode k chunk).1) h.state;
          set = h.set;
          limit_byte = h.limit_byte;
          limit_text = h.limit_text;
        })

  pub feed_chunks-IsTail :
      (chunks : Chunks) (e : Engine decoder) (ts : List Trigger) (mb mt : ℕ) (s : Bytes) (u : Text)
      (st : State)
      → 1 ≤ length ts
      → IsTail e ts mb mt s u st
      → IsTail
          (feed_chunks chunks e)
          ts
          mb
          mt
          (s ++ bytes_of chunks)
          (u ++ (decode_chunks st chunks).0)
          (decode_chunks st chunks).1
  feed_chunks-IsTail [] e ts mb mt s u st n h =
      subst (λ (r : Bytes × Text). IsTail e ts mb mt (r.0) (r.1) st)
        (ap₂ (λ a b. (a, b)) (sym (append-nil s)) (sym (append-nil u))) h
  feed_chunks-IsTail ((now, chunk) ∷ chunks) e ts mb mt s u st n h =
      let (said, st') = decode st chunk in
      subst
        (λ (r : Bytes × Text).
          IsTail (feed_chunks chunks (feed decoder now chunk e).1) ts mb mt (r.0) (r.1)
            (decode_chunks st' chunks).1)
        (ap₂ (λ a b. (a, b)) (append_assoc s chunk (bytes_of chunks))
          (append_assoc u said (decode_chunks st' chunks).0))
        (feed_chunks-IsTail chunks (feed decoder now chunk e).1 ts mb mt (s ++ chunk) (u ++ said)
          st' n (feed-IsTail now chunk e ts mb mt s u st n h))

  pub new_engine-IsTail :
      (ts : List Trigger)
      → IsTail
          (new_engine decoder ts)
          ts
          (limits_from 1 1 ts).0
          (limits_from 1 1 ts).1
          []
          []
          initial
  unfolding new_engine
  new_engine-IsTail ts = record {
    bytes = sym (keep_last-nil ((limits_from 1 1 ts).0 + 1));
    said = sym (keep_last-nil ((limits_from 1 1 ts).1 + 1));
    state = refl;
    set = refl;
    limit_byte = refl;
    limit_text = refl;
  }
