-- ===== src/Parser/Cuts.antt =====
-- What `feed` of src/lib/protocol-parser.ts hands out: parts of the stream, in its order and without overlap.
use bbcom.Base.{
  ℕ, zero, suc, ◌+◌, ◌-◌, ◌≤◌, ◌≡◌, refl, sym, ap, subst, ◌∙◌, Bool, true, false, ◌||◌, Option,
  none, some, List, [], ◌∷◌, ◌++◌, arith, ltb, ◌==◌, if◌then◌else◌, length, take, drop,
  length-append, drop-append,
}
use bbcom.Parser.{
  ProtocolParser, ParsedFrame, ByteParserConfig, LengthConfig, LengthSize, one_byte, two_bytes,
  four_bytes, size_of, delimiter_config, length_config, fixed_config, pending, view, emit,
  extract_fixed, extract_match, extract_delimiter, extract_length, extract_with, extract_one,
  drain_rounds, drain, prepend, length_value, max_length_frame_bytes,
}
use bbcom.Parser.Search.{Bytes, index_of_found}
use bbcom.Parser.Window.{IsWindow}
use bbcom.Parser.Consume.{Consumed, Consumed-none, Consumed-counted, consume-Consumed}

-- From a stream that begins at an absolute offset, frames are cut and bytes are passed over, until a rest.
pub data Cuts : ℕ → Bytes → List ParsedFrame → ℕ → Bytes → Type 0 where
  stop : {o : ℕ} {xs : Bytes} → Cuts o xs [] o xs
  pass :
      {o : ℕ} {xs : Bytes} {fs : List ParsedFrame} {o' : ℕ} {ys : Bytes} (k next : ℕ) (rest : Bytes)
      → next ≡ o + k
      → rest ≡ drop k xs
      → k ≤ length xs
      → Cuts next rest fs o' ys
      → Cuts o xs fs o' ys
  cut :
      {o : ℕ} {xs : Bytes} {fs : List ParsedFrame} {o' : ℕ} {ys : Bytes} (n k next : ℕ)
      (bytes rest : Bytes)
      → bytes ≡ take n xs
      → n ≤ k
      → next ≡ o + k
      → rest ≡ drop k xs
      → k ≤ length xs
      → Cuts next rest fs o' ys
      → Cuts o xs (record { data_bytes = bytes; offset = o } ∷ fs) o' ys

take-append_within : (n : ℕ) (xs zs : Bytes) → n ≤ length xs → take n (xs ++ zs) ≡ take n xs
take-append_within zero xs zs h = refl
take-append_within (suc n) [] zs h = absurd (omega arith)
take-append_within (suc n) (x ∷ xs) zs h =
    ap (λ t. x ∷ t) (take-append_within n xs zs (omega arith))

pub Cuts-more :
    (zs : Bytes) {o : ℕ} {xs : Bytes} {fs : List ParsedFrame} {o' : ℕ} {ys : Bytes}
    → Cuts o xs fs o' ys
    → Cuts o (xs ++ zs) fs o' (ys ++ zs)
Cuts-more zs stop = stop
Cuts-more zs (pass {xs = xs} k next rest at e h c) =
    pass k next (rest ++ zs) at (ap (λ t. t ++ zs) e ∙ sym (drop-append k xs zs h))
      (omega (arith, h, length-append xs zs)) (Cuts-more zs c)
Cuts-more zs (cut {xs = xs} n k next bytes rest d h at e g c) =
    cut n k next bytes (rest ++ zs) (d ∙ sym (take-append_within n xs zs (omega arith))) h at
      (ap (λ t. t ++ zs) e ∙ sym (drop-append k xs zs g)) (omega (arith, g, length-append xs zs))
      (Cuts-more zs c)

-- Bytes can be passed over at the end.
pub Cuts-then :
    {o : ℕ} {xs : Bytes} {fs : List ParsedFrame} {o' : ℕ} {ys : Bytes} (k last : ℕ) (zs : Bytes)
    → last ≡ o' + k
    → zs ≡ drop k ys
    → k ≤ length ys
    → Cuts o xs fs o' ys
    → Cuts o xs fs last zs
Cuts-then k last zs at e h stop = pass k last zs at e h stop
Cuts-then k last zs at e h (pass i next rest at1 e1 h1 c) =
    pass i next rest at1 e1 h1 (Cuts-then k last zs at e h c)
Cuts-then k last zs at e h (cut n i next bytes rest d g at1 e1 h1 c) =
    cut n i next bytes rest d g at1 e1 h1 (Cuts-then k last zs at e h c)

pub Cuts-append :
    {o : ℕ} {xs : Bytes} {fs : List ParsedFrame} {o' : ℕ} {ys : Bytes} {gs : List ParsedFrame}
    {o'' : ℕ} {zs : Bytes}
    → Cuts o xs fs o' ys
    → Cuts o' ys gs o'' zs
    → Cuts o xs (fs ++ gs) o'' zs
Cuts-append stop d = d
Cuts-append (pass k next rest at e h c) d = pass k next rest at e h (Cuts-append c d)
Cuts-append (cut n k next bytes rest d1 h at e g c) d =
    cut n k next bytes rest d1 h at e g (Cuts-append c d)

-- What one call of `extract_one` does.
pub Extracted : ProtocolParser → Option ParsedFrame → ProtocolParser → Type 0
Extracted p none q = (k : ℕ) × Consumed p k q
Extracted p (some frame) q =
    (n : ℕ) × (k : ℕ) × (n ≤ k)
    × Consumed p k q
    × (frame ≡ record { data_bytes = take n (view p); offset = p.absolute_start_offset })

if-Extracted :
    (p : ProtocolParser) (b : Bool) (x y : Option ParsedFrame × ProtocolParser)
    → (b ≡ true → Extracted p x.0 x.1)
    → (b ≡ false → Extracted p y.0 y.1)
    → Extracted p (if b then x else y).0 (if b then x else y).1
if-Extracted p true x y f g = f refl
if-Extracted p false x y f g = g refl

emit-Extracted :
    (p : ProtocolParser) (size count : ℕ)
    → IsWindow p
    → size ≤ count
    → count ≤ length (view p)
    → Extracted p (emit p size count).0 (emit p size count).1
unfolding Extracted
emit-Extracted p size count w h g = (size, count, h, consume-Consumed p count w g, refl)

extract_fixed-Extracted :
    (p : ProtocolParser) (size : ℕ)
    → IsWindow p
    → Extracted p (extract_fixed p size).0 (extract_fixed p size).1
unfolding extract_fixed Extracted
extract_fixed-Extracted p size w =
    if-Extracted p (ltb (length (view p)) size) _ _ (λ _. (0, Consumed-none p w))
      (λ enough. emit-Extracted p size size w (omega arith) (ground (arith, enough)))

one-le-size_of : (s : LengthSize) → 1 ≤ size_of s
one-le-size_of one_byte = omega arith
one-le-size_of two_bytes = omega arith
one-le-size_of four_bytes = omega arith

extract_length-Extracted :
    (p : ProtocolParser) (c : LengthConfig)
    → IsWindow p
    → Extracted p (extract_length p c).0 (extract_length p c).1
unfolding extract_length Extracted
extract_length-Extracted p c w =
    if-Extracted p (ltb (length (view p)) (c.length_offset + size_of c.length_size)) _ _
      (λ _. (0, Consumed-none p w))
      (λ header.
        if-Extracted p
          (ltb total (c.length_offset + size_of c.length_size) || ltb max_length_frame_bytes total)
          _ _
          (λ _. (
            1,
            Consumed-counted p 1 _ _ _ _ _
                (consume-Consumed p 1 w (ground (arith, header, one-le-size_of c.length_size))),
          ))
          (λ _.
            if-Extracted p (ltb (length (view p)) total) _ _ (λ _. (0, Consumed-none p w))
              (λ enough. emit-Extracted p total total w (omega arith) (ground (arith, enough)))))
  where
    total : ℕ
    total = c.length_adjust + length_value c (view p)

extract_match-Extracted :
    (p : ProtocolParser) (delimiter : Bytes) (include_delimiter : Bool) (found : Option ℕ)
    → IsWindow p
    → ((m : ℕ) → found ≡ some m → m + length delimiter ≤ length (view p))
    → Extracted p
        (extract_match p delimiter include_delimiter found).0
        (extract_match p delimiter include_delimiter found).1
unfolding extract_match Extracted
extract_match-Extracted p delimiter include_delimiter none w room =
    (0, Consumed-counted p 0 p _ _ _ _ (Consumed-none p w))
extract_match-Extracted p delimiter include_delimiter (some m) w room =
    if-Extracted p (ltb p.max_pending_bytes (if include_delimiter then m + length delimiter else m))
      _ _ (λ _. (0, Consumed-none p w))
      (λ _. (
        if include_delimiter then m + length delimiter else m,
        m + length delimiter,
        ground arith,
        Consumed-counted p (m + length delimiter) _ _ _ _ _
            (consume-Consumed p (m + length delimiter) w (room m refl)),
        refl,
      ))

extract_delimiter-Extracted :
    (p : ProtocolParser) (delimiter : Bytes) (include_delimiter : Bool)
    → IsWindow p
    → Extracted p
        (extract_delimiter p delimiter include_delimiter).0
        (extract_delimiter p delimiter include_delimiter).1
unfolding extract_delimiter
extract_delimiter-Extracted p delimiter include_delimiter w =
    extract_match-Extracted p delimiter include_delimiter _ w (λ m e.
      index_of_found (view p) delimiter (p.delimiter_search_offset - p.absolute_start_offset) m e)

pub extract_with-Extracted :
    (c : ByteParserConfig) (p : ProtocolParser)
    → IsWindow p
    → Extracted p (extract_with c p).0 (extract_with c p).1
unfolding extract_with
extract_with-Extracted (fixed_config size) p w = extract_fixed-Extracted p size w
extract_with-Extracted (delimiter_config delimiter include_delimiter) p w =
    extract_delimiter-Extracted p delimiter include_delimiter w
extract_with-Extracted (length_config c) p w = extract_length-Extracted p c w

-- What a call does to the window of `p`.
abbrev pub Drained : ProtocolParser → List ParsedFrame × ProtocolParser → Type 0
Drained p (frames, q) =
    IsWindow q × Cuts p.absolute_start_offset (view p) frames q.absolute_start_offset (view q)

if-Drained :
    (p : ProtocolParser) (b : Bool) (x y : List ParsedFrame × ProtocolParser)
    → Drained p x
    → Drained p y
    → Drained p (if b then x else y)
if-Drained p true x y f g = f
if-Drained p false x y f g = g

pub Extracted-IsWindow :
    (p : ProtocolParser) (frame : Option ParsedFrame) (q : ProtocolParser)
    → Extracted p frame q
    → IsWindow q
unfolding Extracted Consumed
Extracted-IsWindow p none q (k, (w, _, _, _)) = w
Extracted-IsWindow p (some f) q (n, k, h, (w, _, _, _), e) = w

Extracted-Drained :
    (p : ProtocolParser) (frame : Option ParsedFrame) (q : ProtocolParser)
    (rest : List ParsedFrame × ProtocolParser)
    → Extracted p frame q
    → Drained q rest
    → Drained p (prepend frame rest.0, rest.1)
unfolding Extracted Consumed
Extracted-Drained p none q (fs, r) (k, (_, same, at, h)) (w, c) =
    (w, pass k q.absolute_start_offset (view q) at same h c)
Extracted-Drained p (some f) q (fs, r) (n, k, h, (_, same, at, g), e) (w, c) = (
  w,
  subst (λ x. Cuts p.absolute_start_offset (view p) (x ∷ fs) r.absolute_start_offset (view r))
      (sym e) (cut n k q.absolute_start_offset (take n (view p)) (view q) refl h at same g c),
)

drain_rounds-Drained :
    (rounds : ℕ) (p : ProtocolParser) → IsWindow p → Drained p (drain_rounds rounds p)
unfolding drain_rounds extract_one
drain_rounds-Drained zero p w = (w, stop)
drain_rounds-Drained (suc rounds) p w =
    let (frame, q) = extract_one p in
    let step = extract_with-Extracted p.config p w in
    let moved = Extracted-IsWindow p frame q step in
    if-Drained p (q.start == p.start) _ _ (Extracted-Drained p frame q ([], q) step (moved, stop)) (
      Extracted-Drained p frame q (drain_rounds rounds q) step
        (drain_rounds-Drained rounds q moved))

pub drain-Drained : (p : ProtocolParser) → IsWindow p → Drained p (drain p)
unfolding drain
drain-Drained p w = drain_rounds-Drained (suc (pending p)) p w
