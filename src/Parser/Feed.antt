-- ===== src/Parser/Feed.antt =====
-- `feed` of src/lib/protocol-parser.ts: the frames of a call are cut from the stream, and the window is what is left.
use bbcom.Base.{
  ℕ, zero, suc, ◌+◌, ◌-◌, ◌≤◌, ◌≡◌, refl, sym, ap, subst, ◌∙◌, min, max, List, [], ◌∷◌, ◌++◌, arith,
  length, take, drop, length-drop, take-append-drop,
}
use bbcom.Parser.{
  ProtocolParser, ParsedFrame, ByteParserConfig, delimiter_config, length_config, fixed_config,
  pending, view, append, compact_buffer, enforce_pending_limit, drain, feed_slices, feed_with, feed,
  new_parser,
}
use bbcom.Parser.Search.{Bytes}
use bbcom.Parser.Window.{IsWindow, Extends, append-Extends, append_assoc, length-view}
use bbcom.Parser.Consume.{Consumed, compact_buffer-Consumed, enforce_pending_limit-Consumed}
use bbcom.Parser.Cuts.{Cuts, stop, pass, cut, Cuts-more, Cuts-then, Cuts-append, drain-Drained}

append_nil : (xs : Bytes) → xs ++ [] ≡ xs
append_nil [] = refl
append_nil (x ∷ xs) = ap (λ t. x ∷ t) (append_nil xs)

-- What a call makes of the window and new bytes: frames that are cut from them, and the window that is left.
abbrev pub Handed : ProtocolParser → Bytes → List ParsedFrame × ProtocolParser → Type 0
Handed p input (frames, q) =
    IsWindow q
    × Cuts p.absolute_start_offset (view p ++ input) frames q.absolute_start_offset (view q)

Cuts-from :
    {o o2 : ℕ} {xs xs2 : Bytes} {fs : List ParsedFrame} {o' : ℕ} {ys : Bytes}
    → o ≡ o2
    → xs ≡ xs2
    → Cuts o xs fs o' ys
    → Cuts o2 xs2 fs o' ys
Cuts-from {o = o} {xs2 = xs2} {fs = fs} {o' = o'} {ys = ys} at same c =
    subst (λ i. Cuts i xs2 fs o' ys) at (subst (λ t. Cuts o t fs o' ys) same c)

append-drain-Handed :
    (p : ProtocolParser) (input : Bytes) → IsWindow p → Handed p input (drain (append p input))
unfolding Extends
append-drain-Handed p input w =
    let (appended, window, at) = append-Extends p input w in
    let (drained, cuts) = drain-Drained (append p input) appended in
    (drained, Cuts-from at window cuts)

Handed-Consumed :
    (p : ProtocolParser) (input : Bytes) (frames : List ParsedFrame) (q : ProtocolParser) (k : ℕ)
    (r : ProtocolParser)
    → Handed p input (frames, q)
    → Consumed q k r
    → Handed p input (frames, r)
unfolding Consumed
Handed-Consumed p input frames q k r (_, cuts) (w, same, at, h) =
    (w, Cuts-then k r.absolute_start_offset (view r) at same h cuts)

feed_slices-Handed :
    (rounds : ℕ) (p : ProtocolParser) (input : Bytes)
    → length input ≤ rounds
    → IsWindow p
    → Handed p input (feed_slices rounds p input)
unfolding feed_slices
feed_slices-Handed zero p [] h w = (w, Cuts-from refl (sym (append_nil (view p))) stop)
feed_slices-Handed zero p (b ∷ input) h w = absurd (omega arith)
feed_slices-Handed (suc rounds) p [] h w = (w, Cuts-from refl (sym (append_nil (view p))) stop)
feed_slices-Handed (suc rounds) p (b ∷ input) h w =
    let all : Bytes = b ∷ input in
    let size = min (length all) (max 1 (p.max_pending_bytes - pending p + 1)) in
    let a = take size all in
    let rest = drop size all in
    let (frames, q) = drain (append p a) in
    let handed = append-drain-Handed p a w in
    let (k, limited) = enforce_pending_limit-Consumed q handed.0 in
    let first = Handed-Consumed p a frames q k (enforce_pending_limit q) handed limited in
    let next = compact_buffer (enforce_pending_limit q) in
    let second =
      Handed-Consumed p a frames (enforce_pending_limit q) 0 next first
        (compact_buffer-Consumed (enforce_pending_limit q) first.0) in
    let (done, more) =
      feed_slices-Handed rounds next rest (omega (arith, h, length-drop size all)) second.0 in
    (
      done,
      Cuts-from refl
          (append_assoc (view p) a rest ∙ ap (λ t. view p ++ t) (take-append-drop size all))
          (Cuts-append (Cuts-more rest second.1) more),
    )

feed_with-Handed :
    (c : ByteParserConfig) (p : ProtocolParser) (input : Bytes)
    → IsWindow p
    → Handed p input (feed_with c p input)
unfolding feed_with
feed_with-Handed (delimiter_config d i) p input w =
    feed_slices-Handed (length input) p input (omega arith) w
feed_with-Handed (fixed_config size) p input w =
    let (_, q) = drain (append p input) in
    let handed = append-drain-Handed p input w in
    Handed-Consumed p input _ q 0 _ handed (compact_buffer-Consumed q handed.0)
feed_with-Handed (length_config c) p input w =
    let (_, q) = drain (append p input) in
    let handed = append-drain-Handed p input w in
    Handed-Consumed p input _ q 0 _ handed (compact_buffer-Consumed q handed.0)

-- One call of `feed` on a parser whose window is in its buffer: the frames are parts of the window and the new
-- bytes, in their order and without overlap, each with the absolute offset of its first byte, and the window
-- that is left is what stands behind them and behind the bytes that were passed over.
pub feed-Handed : (p : ProtocolParser) (input : Bytes) → IsWindow p → Handed p input (feed p input)
unfolding feed
feed-Handed p [] w = (w, Cuts-from refl (sym (append_nil (view p))) stop)
feed-Handed p (b ∷ input) w = feed_with-Handed p.config p (b ∷ input) w

-- The calls for several inputs, with all their frames.
unfoldable pub feed_all : ProtocolParser → List Bytes → List ParsedFrame × ProtocolParser
unfolding feed
feed_all p [] = ([], p)
feed_all p (input ∷ inputs) =
    let (frames, q) = feed p input in let (more, r) = feed_all q inputs in (frames ++ more, r)

unfoldable pub joined : List Bytes → Bytes
joined [] = []
joined (input ∷ inputs) = input ++ joined inputs

feed_all-Handed :
    (p : ProtocolParser) (inputs : List Bytes)
    → IsWindow p
    → Handed p (joined inputs) (feed_all p inputs)
unfolding feed_all joined
feed_all-Handed p [] w = (w, Cuts-from refl (sym (append_nil (view p))) stop)
feed_all-Handed p (input ∷ inputs) w =
    let (moved, first) = feed-Handed p input w in
    let (done, more) = feed_all-Handed (feed p input).1 inputs moved in
    (
      done,
      Cuts-from refl (append_assoc (view p) input (joined inputs))
          (Cuts-append (Cuts-more (joined inputs) first) more),
    )

Cuts-length :
    {o : ℕ} {xs : Bytes} {fs : List ParsedFrame} {o' : ℕ} {ys : Bytes}
    → Cuts o xs fs o' ys
    → o' + length ys ≡ o + length xs
Cuts-length stop = refl
Cuts-length (pass {xs = xs} k next rest at e h c) =
    omega (arith, Cuts-length c, at, h, ap length e ∙ length-drop k xs)
Cuts-length (cut {xs = xs} n k next bytes rest d g at e h c) =
    omega (arith, Cuts-length c, at, h, ap length e ∙ length-drop k xs)

pub new_parser-IsWindow : (c : ByteParserConfig) (limit : ℕ) → IsWindow (new_parser c limit)
new_parser-IsWindow c limit = record { ordered = omega arith; in_buffer = omega arith }

new_parser-view : (c : ByteParserConfig) (limit : ℕ) → view (new_parser c limit) ≡ []
unfolding view pending
new_parser-view c limit = refl

-- All that is fed to a new parser, in any inputs: the frames of all calls are cut from the whole stream in its
-- order, without overlap and at their absolute offsets, and the absolute offset of the window and the number of
-- pending bytes add up to the number of the bytes that were fed.
pub feed_all-Cuts :
    (c : ByteParserConfig) (limit : ℕ) (inputs : List Bytes)
    → Cuts 0
        (joined inputs)
        (feed_all (new_parser c limit) inputs).0
        (feed_all (new_parser c limit) inputs).1.absolute_start_offset
        (view (feed_all (new_parser c limit) inputs).1)
      × ((feed_all (new_parser c limit) inputs).1.absolute_start_offset
            + pending (feed_all (new_parser c limit) inputs).1
          ≡ length (joined inputs))
feed_all-Cuts c limit inputs =
    let (window, cuts) =
      feed_all-Handed (new_parser c limit) inputs (new_parser-IsWindow c limit) in
    let from_start = Cuts-from refl (ap (λ t. t ++ joined inputs) (new_parser-view c limit)) cuts in
    (
      from_start,
      omega (
        arith,
        Cuts-length from_start,
        length-view (feed_all (new_parser c limit) inputs).1 window,
      ),
    )
