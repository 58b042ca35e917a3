-- ===== src/Parser/Rounds.antt =====
-- The loop of `drain` of src/lib/protocol-parser.ts ends by itself: the fuel of the model is enough.
use bbcom.Base.{
  ℕ, zero, suc, ◌+◌, ◌≤◌, ◌<◌, ◌≡◌, refl, ap, ◌∙◌, Bool, true, false, Option, none, some, List,
  arith, ltb, ◌==◌, ◌||◌, if◌then◌else◌, length,
}
use bbcom.Parser.{
  ProtocolParser, ParsedFrame, ByteParserConfig, delimiter_config, length_config, fixed_config,
  size_of, pending, view, extract_fixed, extract_match, extract_delimiter, extract_length,
  extract_with, extract_one, drain_rounds, drain, prepend, length_value, emit, consume,
  max_length_frame_bytes,
}
use bbcom.Parser.Search.{Bytes}
use bbcom.Parser.Window.{IsWindow}
use bbcom.Parser.Cuts.{extract_with-Extracted, Extracted-IsWindow}

-- `start` can only grow, and `end` stays.
Onward : ProtocolParser → Option ParsedFrame × ProtocolParser → Type 0
Onward p (frame, q) = (p.start ≤ q.start) × (q.end ≡ p.end)

if-Onward :
    (p : ProtocolParser) (b : Bool) (x y : Option ParsedFrame × ProtocolParser)
    → Onward p x
    → Onward p y
    → Onward p (if b then x else y)
if-Onward p true x y f g = f
if-Onward p false x y f g = g

extract_match-Onward :
    (p : ProtocolParser) (delimiter : Bytes) (include_delimiter : Bool) (found : Option ℕ)
    → Onward p (extract_match p delimiter include_delimiter found)
unfolding extract_match Onward consume
extract_match-Onward p delimiter include_delimiter none = (omega arith, refl)
extract_match-Onward p delimiter include_delimiter (some m) =
    if-Onward p _ _ _ (omega arith, refl) (omega arith, refl)

onward :
    (p : ProtocolParser) (frame : Option ParsedFrame) (q : ProtocolParser)
    → p.start ≤ q.start
    → q.end ≡ p.end
    → Onward p (frame, q)
unfolding Onward
onward p frame q h e = (h, e)

extract_with-Onward : (c : ByteParserConfig) (p : ProtocolParser) → Onward p (extract_with c p)
unfolding extract_with extract_fixed extract_delimiter extract_length consume
extract_with-Onward (fixed_config size) p =
    if-Onward p (ltb (length (view p)) size) _ _ (onward p none p (omega arith) refl)
      (onward p (emit p size size).0 (consume p size) (omega arith) refl)
extract_with-Onward (delimiter_config delimiter include_delimiter) p =
    extract_match-Onward p delimiter include_delimiter _
extract_with-Onward (length_config c) p =
    let total = c.length_adjust + length_value c (view p) in
    let header_end = c.length_offset + size_of c.length_size in
    if-Onward p (ltb (length (view p)) header_end) _ _ (onward p none p (omega arith) refl) (
      if-Onward p (ltb total header_end || ltb max_length_frame_bytes total) _ _
        (onward p none
          (record (consume p 1) {
            discarded_bytes = p.discarded_bytes + 1;
            resync_events = p.resync_events + 1;
          })
          (omega arith) refl)
        (if-Onward p (ltb (length (view p)) total) _ _ (onward p none p (omega arith) refl)
          (onward p (emit p total total).0 (consume p total) (omega arith) refl)))

if-rest :
    (b : Bool) (x : List ParsedFrame × ProtocolParser) (frame : Option ParsedFrame)
    (rest rest' : List ParsedFrame × ProtocolParser)
    → (b ≡ false → rest ≡ rest')
    → (if b then x else (prepend frame rest.0, rest.1))
      ≡ (if b then x else (prepend frame rest'.0, rest'.1))
if-rest true x frame rest rest' e = refl
if-rest false x frame rest rest' e = ap (λ t. (prepend frame t.0, t.1)) (e refl)

drain_rounds_more :
    (rounds more : ℕ) (p : ProtocolParser)
    → IsWindow p
    → pending p < rounds
    → drain_rounds (rounds + more) p ≡ drain_rounds rounds p
unfolding drain_rounds extract_one pending Onward
drain_rounds_more zero more p w h = absurd (omega arith)
drain_rounds_more (suc rounds) more p w h =
    let (frame, q) = extract_one p in
    let (onward, same_end) = extract_with-Onward p.config p in
    let moved = Extracted-IsWindow p frame q (extract_with-Extracted p.config p w) in
    ap (λ k. drain_rounds k p) more_rounds
    ∙ if-rest (q.start == p.start) _ frame (drain_rounds (rounds + more) q) (drain_rounds rounds q)
        (λ other.
          drain_rounds_more rounds more q moved
            (ground (arith, other, onward, same_end, moved.ordered, h)))
  where
    more_rounds : suc rounds + more ≡ suc (rounds + more)
    more_rounds = omega arith

-- With one round more than there are pending bytes, the loop of `drain` has come to its end: with any number
-- of further rounds it returns the same frames and the same parser.
pub drain_complete :
    (p : ProtocolParser) (more : ℕ) → IsWindow p → drain_rounds (suc (pending p) + more) p ≡ drain p
unfolding drain
drain_complete p more w = drain_rounds_more (suc (pending p)) more p w (omega arith)
