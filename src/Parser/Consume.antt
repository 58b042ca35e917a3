-- ===== src/Parser/Consume.antt =====
-- What consuming and compacting do to the window of the parser (src/lib/protocol-parser.ts).
use bbcom.Base.{
  ℕ, zero, suc, ◌+◌, ◌-◌, ◌≤◌, ◌≡◌, inl, inr, refl, sym, ap, ◌∙◌, ◌||◌, [], ◌∷◌, arith, leb, ◌==◌,
  length, take, drop, Bool-cases, drop-drop, take-nil,
}
use bbcom.Parser.{
  ProtocolParser, ByteParserConfig, delimiter_config, length_config, fixed_config, pending, view,
  overwrite, consume, compact_buffer, enforce_limit, enforce_pending_limit,
  buffer_compact_threshold,
}
use bbcom.Parser.Search.{Bytes}
use bbcom.Parser.Window.{IsWindow, if-both, length-view, length-overwrite, view_at_start}

drop-take : (k n m : ℕ) (xs : Bytes) → m ≡ k + n → drop k (take m xs) ≡ take n (drop k xs)
drop-take zero n m xs e = ap (λ j. take j xs) (omega arith)
drop-take (suc k) n zero xs e = absurd (omega arith)
drop-take (suc k) n (suc m) [] e = sym (take-nil n)
drop-take (suc k) n (suc m) (x ∷ xs) e = drop-take k n m xs (omega arith)

nil_of_length : (xs : Bytes) → length xs ≡ 0 → xs ≡ []
nil_of_length [] e = refl
nil_of_length (x ∷ xs) e = absurd (omega arith)

-- The window of `q` is that of `p` without its first bytes, and the absolute offset tells how many.
unfoldable pub Consumed : ProtocolParser → ℕ → ProtocolParser → Type 0
Consumed p k q =
    IsWindow q
    × (view q ≡ drop k (view p))
    × (q.absolute_start_offset ≡ p.absolute_start_offset + k)
    × (k ≤ length (view p))

pub consume-Consumed :
    (p : ProtocolParser) (k : ℕ) → IsWindow p → k ≤ length (view p) → Consumed p k (consume p k)
unfolding consume view pending Consumed
consume-Consumed p k w h =
    let size = length-view p w in
    (
      record { ordered = omega (arith, h, size, w.ordered); in_buffer = w.in_buffer },
      sym (
          drop-take k (p.end - (p.start + k)) (p.end - p.start) (drop p.start p.buffer)
            (omega (arith, h, size, w.ordered))
          ∙ ap (take (p.end - (p.start + k))) (drop-drop k p.start p.buffer)),
      refl,
      h,
    )

pub Consumed-none : (p : ProtocolParser) → IsWindow p → Consumed p 0 p
unfolding Consumed
Consumed-none p w = (w, refl, omega arith, omega arith)

pub compact_buffer-Consumed : (p : ProtocolParser) → IsWindow p → Consumed p 0 (compact_buffer p)
unfolding compact_buffer Consumed view pending
compact_buffer-Consumed p w =
    if-both (Consumed p 0) (p.start == 0) _ _ (λ _. Consumed-none p w)
      (λ _.
        if-both (Consumed p 0) (leb p.end p.start) _ _
          (λ empty. (
            record { ordered = omega arith; in_buffer = omega arith },
            sym (nil_of_length (view p) (length-view p w ∙ ground (arith, empty))),
            omega arith,
            omega arith,
          ))
          (λ _.
            if-both (Consumed p 0) (leb buffer_compact_threshold p.start || leb (pending p) p.start)
              _ _ (λ _. moved) (λ _. Consumed-none p w)))
  where
    moved :
        Consumed p 0
          (record p { buffer = overwrite p.buffer 0 (view p); start = 0; end = pending p })
    moved =
        let size = length-view p w in
        (
          record {
            ordered = omega arith;
            in_buffer = omega (
              arith,
              w.in_buffer,
              length-overwrite p.buffer 0 (view p) (omega (arith, size, w.in_buffer)),
            );
          },
          ap (λ k. take k (overwrite p.buffer 0 (view p))) (omega (arith, size))
              ∙ view_at_start p.buffer (view p),
          omega arith,
          omega arith,
        )

-- The counters and the place of the search are no part of the window.
pub Consumed-counted :
    (p : ProtocolParser) (k : ℕ) (q : ProtocolParser) (search discarded overflows resyncs : ℕ)
    → Consumed p k q
    → Consumed p k (record q {
      delimiter_search_offset = search;
      discarded_bytes = discarded;
      overflow_events = overflows;
      resync_events = resyncs;
    })
unfolding Consumed view pending
Consumed-counted p k q search discarded overflows resyncs (w, same, at, h) =
    (record { ordered = w.ordered; in_buffer = w.in_buffer }, same, at, h)

enforce_limit-Consumed :
    (c : ByteParserConfig) (p : ProtocolParser)
    → IsWindow p
    → (k : ℕ) × Consumed p k (enforce_limit c p)
unfolding enforce_limit
enforce_limit-Consumed (delimiter_config delimiter include_delimiter) p w =
    elim (Bool-cases (leb (pending p) p.max_pending_bytes)) [
      | inl fits ↦ (0, rw fits (Consumed-none p w))
      | inr full ↦ (
        pending p - (length delimiter - 1),
        rw full (
            Consumed-counted p (pending p - (length delimiter - 1)) _ _ _ _ _ (
              consume-Consumed p (pending p - (length delimiter - 1)) w
                (omega (arith, length-view p w)))),
      )
    ]
enforce_limit-Consumed (length_config c) p w = (0, Consumed-none p w)
enforce_limit-Consumed (fixed_config size) p w = (0, Consumed-none p w)

pub enforce_pending_limit-Consumed :
    (p : ProtocolParser) → IsWindow p → (k : ℕ) × Consumed p k (enforce_pending_limit p)
unfolding enforce_pending_limit
enforce_pending_limit-Consumed p w = enforce_limit-Consumed p.config p w
