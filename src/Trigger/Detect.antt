-- ===== src/Trigger/Detect.antt =====
-- What src/lib/trigger-engine.ts finds in a stream that is fed in chunks.
use bbcom.Base.{
  ℕ, zero, suc, ◌+◌, ◌≤◌, ◌≡◌, ◌↔◌, ap₂, sym, subst, true, some, List, [], ◌∷◌, ◌++◌, arith,
  if◌then◌else◌, length, get_elem?,
}
use bbcom.Base.Text.{Text}
use bbcom.Trigger.Hex.{Bytes, parse_hex_pattern}
use bbcom.Trigger.Search.{Occurs}
use bbcom.Trigger.Matches.{match_hex-Occurs, match_text-Occurs}
use bbcom.Trigger.Checks.{seen_bytes, seen_text}
use bbcom.Trigger.Tail.{
  OccursLate, window-Occurs, window-OccursLate, Chunks, bytes_of, feed_chunks, decode_chunks,
  IsTail, feed_chunks-IsTail, new_engine-IsTail,
}
use bbcom.Trigger.{
  Trigger, TriggerMatchMode, hex, text, TextDecoder, Engine, keep_last, limits_from, max_byte_with,
  max_text_with, match_hex, match_text, new_engine,
}

max_byte_with-grow :
    (m : ℕ) (mode : TriggerMatchMode) (pattern : Text) → m ≤ max_byte_with m mode pattern
unfolding max_byte_with
max_byte_with-grow m hex pattern = ground arith
max_byte_with-grow m text pattern = omega arith

max_text_with-grow :
    (m : ℕ) (mode : TriggerMatchMode) (pattern : Text) → m ≤ max_text_with m mode pattern
unfolding max_text_with
max_text_with-grow m hex pattern = omega arith
max_text_with-grow m text pattern = ground arith

-- The limits grow along the list.
limits_from-grow :
    (ts : List Trigger) (mb mt : ℕ)
    → (mb ≤ (limits_from mb mt ts).0) × (mt ≤ (limits_from mb mt ts).1)
unfolding limits_from
limits_from-grow [] mb mt = (omega arith, omega arith)
limits_from-grow (t ∷ ts) mb mt =
    let mb' = if t.enabled then max_byte_with mb t.match_mode t.pattern else mb in
    let mt' = if t.enabled then max_text_with mt t.match_mode t.pattern else mt in
    let (b, c) = limits_from-grow ts mb' mt' in
    (
      ground (arith, b, max_byte_with-grow mb t.match_mode t.pattern),
      ground (arith, c, max_text_with-grow mt t.match_mode t.pattern),
    )

hex-within :
    (m : ℕ) (t : Trigger)
    → t.enabled ≡ true
    → t.match_mode ≡ hex
    → length (parse_hex_pattern t.pattern)
      ≤ (if t.enabled then max_byte_with m t.match_mode t.pattern else m)
unfolding max_byte_with
hex-within m t on mode = rw (on, mode) (ground arith)

text-within :
    (m : ℕ) (t : Trigger)
    → t.enabled ≡ true
    → t.match_mode ≡ text
    → length t.pattern ≤ (if t.enabled then max_text_with m t.match_mode t.pattern else m)
unfolding max_text_with
text-within m t on mode = rw (on, mode) (ground arith)

-- The limits are at least as long as the patterns that count for them.
limits_from-hex :
    (ts : List Trigger) (mb mt i : ℕ) (t : Trigger)
    → get_elem? ts i ≡ some t
    → t.enabled ≡ true
    → t.match_mode ≡ hex
    → length (parse_hex_pattern t.pattern) ≤ (limits_from mb mt ts).0
unfolding limits_from
limits_from-hex [] mb mt i t e on mode = cc
limits_from-hex (x ∷ ts) mb mt zero t e on mode =
    let same : x ≡ t = cc in
    subst (λ y. length (parse_hex_pattern y.pattern) ≤ (limits_from mb mt (x ∷ ts)).0) same
      (omega (
        arith,
        hex-within mb x (subst (λ y. y.enabled ≡ true) (sym same) on)
            (subst (λ y. y.match_mode ≡ hex) (sym same) mode),
        (limits_from-grow ts _ _).0,
      ))
limits_from-hex (x ∷ ts) mb mt (suc i) t e on mode = limits_from-hex ts _ _ i t e on mode

limits_from-text :
    (ts : List Trigger) (mb mt i : ℕ) (t : Trigger)
    → get_elem? ts i ≡ some t
    → t.enabled ≡ true
    → t.match_mode ≡ text
    → length t.pattern ≤ (limits_from mb mt ts).1
unfolding limits_from
limits_from-text [] mb mt i t e on mode = cc
limits_from-text (x ∷ ts) mb mt zero t e on mode =
    let same : x ≡ t = cc in
    subst (λ y. length y.pattern ≤ (limits_from mb mt (x ∷ ts)).1) same
      (omega (
        arith,
        text-within mt x (subst (λ y. y.enabled ≡ true) (sym same) on)
            (subst (λ y. y.match_mode ≡ text) (sym same) mode),
        (limits_from-grow ts (if x.enabled then max_byte_with mb x.match_mode x.pattern else mb)
            _).1,
      ))
limits_from-text (x ∷ ts) mb mt (suc i) t e on mode = limits_from-text ts _ _ i t e on mode

length-some : (ts : List Trigger) (i : ℕ) (t : Trigger) → get_elem? ts i ≡ some t → 1 ≤ length ts
length-some [] i t e = cc
length-some (x ∷ ts) i t e = omega arith

module _ (decoder : TextDecoder) where
  open decoder use {initial, decode}

  -- An engine after a history of chunks.
  abbrev pub fed : List Trigger → Chunks → Engine decoder
  fed ts chunks = feed_chunks decoder chunks (new_engine decoder ts)

  fed-IsTail :
      (ts : List Trigger) (chunks : Chunks)
      → 1 ≤ length ts
      → IsTail decoder
          (fed ts chunks)
          ts
          (limits_from 1 1 ts).0
          (limits_from 1 1 ts).1
          (bytes_of chunks)
          (decode_chunks decoder initial chunks).0
          (decode_chunks decoder initial chunks).1
  fed-IsTail ts chunks n =
      feed_chunks-IsTail decoder chunks (new_engine decoder ts) ts _ _ [] [] initial n
        (new_engine-IsTail decoder ts)

  -- After any chunks, the pattern of an enabled trigger in hexadecimal mode is not longer than the limit,
  -- and it is matched exactly if it is not empty and stands, however the stream was cut, among the last
  -- bytes of the stream: the new ones, as many before them as the limit, and one more.
  pub hex-detected :
      (ts : List Trigger) (chunks : Chunks) (bytes : Bytes) (i : ℕ) (t : Trigger)
      → get_elem? ts i ≡ some t
      → t.enabled ≡ true
      → t.match_mode ≡ hex
      → (length (parse_hex_pattern t.pattern) ≤ (limits_from 1 1 ts).0)
        × ((match_hex (seen_bytes decoder bytes (fed ts chunks)) t ≡ true) ↔ (
            (1 ≤ length (parse_hex_pattern t.pattern))
            × OccursLate
                ((limits_from 1 1 ts).0 + 1 + length bytes)
                (bytes_of chunks ++ bytes)
                (parse_hex_pattern t.pattern)))
  hex-detected ts chunks bytes i t e on mode =
      let size = (limits_from 1 1 ts).0 + 1 in
      let tail = (fed-IsTail ts chunks (length-some ts i t e)).bytes in
      let seen =
        subst
          (λ l. (match_hex (l ++ bytes) t ≡ true) ↔ (
            (1 ≤ length (parse_hex_pattern t.pattern))
            × Occurs (l ++ bytes) (parse_hex_pattern t.pattern)))
          tail (match_hex-Occurs ((fed ts chunks).byte_tail ++ bytes) t) in
      let late =
        OccursLate (size + length bytes) (bytes_of chunks ++ bytes) (parse_hex_pattern t.pattern) in
      (
        limits_from-hex ts 1 1 i t e on mode,
        subst
            (λ l.
              (match_hex (l ++ bytes) t ≡ true)
              ↔ ((1 ≤ length (parse_hex_pattern t.pattern)) × late))
            (sym tail)
            (
              (λ m.
                  let (n, o) = seen.0 m in
                  (n, window-Occurs size (bytes_of chunks) bytes (parse_hex_pattern t.pattern) o)),
              λ (n, o). seen.1 (
                n,
                window-OccursLate size (bytes_of chunks) bytes (parse_hex_pattern t.pattern) o,
              ),
            ),
      )

  -- The same of the text that the decoder makes of the stream, for a trigger in text mode: after any
  -- chunks, the pattern of an enabled trigger is not longer than the limit, and it is matched exactly if it
  -- is not empty and stands among the last characters: those of the new bytes, as many before them as
  -- the limit, and one more.
  pub text-detected :
      (ts : List Trigger) (chunks : Chunks) (bytes : Bytes) (i : ℕ) (t : Trigger)
      → get_elem? ts i ≡ some t
      → t.enabled ≡ true
      → t.match_mode ≡ text
      → (length t.pattern ≤ (limits_from 1 1 ts).1)
        × ((match_text (seen_text decoder bytes (fed ts chunks)) t ≡ true) ↔ (
            (1 ≤ length t.pattern)
            × OccursLate
                ((limits_from 1 1 ts).1
                  + 1
                  + length (decode (decode_chunks decoder initial chunks).1 bytes).0)
                ((decode_chunks decoder initial chunks).0
                  ++ (decode (decode_chunks decoder initial chunks).1 bytes).0)
                t.pattern))
  text-detected ts chunks bytes i t e on mode =
      let size = (limits_from 1 1 ts).1 + 1 in
      let h = fed-IsTail ts chunks (length-some ts i t e) in
      let (before, st) = decode_chunks decoder initial chunks in
      let said = (decode st bytes).0 in
      let tail : seen_text decoder bytes (fed ts chunks) ≡ keep_last size before ++ said =
        ap₂ (λ l k. l ++ (decode k bytes).0) h.said h.state in
      let seen = match_text-Occurs (keep_last size before ++ said) t in
      let late = OccursLate (size + length said) (before ++ said) t.pattern in
      (
        limits_from-text ts 1 1 i t e on mode,
        subst (λ l. (match_text l t ≡ true) ↔ ((1 ≤ length t.pattern) × late)) (sym tail)
            (
              (λ m. let (n, o) = seen.0 m in (n, window-Occurs size before said t.pattern o)),
              λ (n, o). seen.1 (n, window-OccursLate size before said t.pattern o),
            ),
      )
