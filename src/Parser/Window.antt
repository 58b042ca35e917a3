-- ===== src/Parser/Window.antt =====
-- The buffer of the parser (src/lib/protocol-parser.ts) is a window on the stream: what appending, consuming and
-- compacting do to the bytes between `start` and `end`.
use bbcom.Base.{
  ℕ, zero, suc, ◌+◌, ◌-◌, ◌*◌, ◌≤◌, ◌≡◌, refl, ap, subst, ◌∙◌, max, Bool, true, false, ◌&&◌, [],
  ◌∷◌, ◌++◌, arith, take_split, ltb, leb, ◌==◌, if◌then◌else◌, length, take, drop, length-append,
  length-take, length-drop, take-append_self, drop-append_self,
}
use bbcom.Parser.{ProtocolParser, pending, view, overwrite, zero_bytes, grow, capacity_for, append}
use bbcom.Parser.Search.{Bytes}

pub record IsWindow (p : ProtocolParser) : Type 0 where
  pub ordered : p.start ≤ p.end
  pub in_buffer : p.end ≤ length p.buffer

pub length-view : (p : ProtocolParser) → IsWindow p → length (view p) ≡ pending p
unfolding view pending
length-view p w =
    length-take (p.end - p.start) (drop p.start p.buffer)
    ∙ omega (arith, w.ordered, w.in_buffer, length-drop p.start p.buffer)

pub append_assoc : (xs ys zs : Bytes) → xs ++ ys ++ zs ≡ xs ++ (ys ++ zs)
append_assoc [] ys zs = refl
append_assoc (x ∷ xs) ys zs = ap (λ t. x ∷ t) (append_assoc xs ys zs)

-- A part of a list between two places.
slice_of_parts :
    (xs ys zs : Bytes) (i n : ℕ)
    → length xs ≡ i
    → length ys ≡ n
    → take n (drop i (xs ++ ys ++ zs)) ≡ ys
slice_of_parts xs ys zs i n e f =
    subst (λ k. take n (drop k (xs ++ ys ++ zs)) ≡ ys) e
      (subst (λ k. take k (drop (length xs) (xs ++ ys ++ zs)) ≡ ys) f
        (ap (λ t. take (length ys) (drop (length xs) t)) (append_assoc xs ys zs)
          ∙ ap (take (length ys)) (drop-append_self xs (ys ++ zs))
          ∙ take-append_self ys zs))

pub length-overwrite :
    (xs : Bytes) (i : ℕ) (ys : Bytes)
    → i + length ys ≤ length xs
    → length (overwrite xs i ys) ≡ length xs
unfolding overwrite
length-overwrite xs i ys h =
    length-append (take i xs ++ ys) (drop (i + length ys) xs)
    ∙ omega (arith, length-append (take i xs) ys, length-take i xs, length-drop (i + length ys) xs)

length-zero_bytes : (n : ℕ) → length (zero_bytes n) ≡ n
unfolding zero_bytes
length-zero_bytes zero = refl
length-zero_bytes (suc n) = ap suc (length-zero_bytes n)

-- Enough rounds make the capacity large enough.
le-grow :
    (rounds capacity need : ℕ)
    → 1 ≤ capacity
    → need ≤ capacity + rounds
    → need ≤ grow rounds capacity need
unfolding grow
le-grow zero capacity need h g = omega arith
le-grow (suc rounds) capacity need h g = ground (arith, le-grow rounds (capacity * 2) need)

pub le-capacity_for : (size need : ℕ) → need ≤ capacity_for size need
unfolding capacity_for
le-capacity_for size need =
    le-grow need (max 64 (if size == 0 then 64 else size)) need (ground arith) (ground arith)

-- Behind the kept bytes: the window is what was in it and the new bytes.
view_at_end :
    (xs : Bytes) (s n i : ℕ) (input : Bytes)
    → i ≡ s + n
    → s + n ≤ length xs
    → take (n + length input) (drop s (overwrite xs i input)) ≡ take n (drop s xs) ++ input
unfolding overwrite
view_at_end xs s n i input e h =
    ap (λ t. take (n + length input) (drop s (t ++ input ++ drop (i + length input) xs)))
      (ap (λ k. take k xs) e ∙ take_split s n xs)
    ∙ ap (λ t. take (n + length input) (drop s (t ++ drop (i + length input) xs)))
        (append_assoc (take s xs) (take n (drop s xs)) input)
    ∙ slice_of_parts (take s xs) (take n (drop s xs) ++ input) (drop (i + length input) xs) s
        (n + length input) (length-take s xs ∙ omega arith)
        (length-append (take n (drop s xs)) input
          ∙ omega (arith, length-take n (drop s xs), length-drop s xs))

-- In front: the bytes that are moved to the start of a buffer.
pub view_at_start : (xs kept : Bytes) → take (length kept) (overwrite xs 0 kept) ≡ kept
unfolding overwrite
view_at_start xs kept = take-append_self kept (drop (0 + length kept) xs)

view_moved :
    (xs kept input : Bytes)
    → length kept ≤ length xs
    → take (length kept + length input) (overwrite (overwrite xs 0 kept) (length kept) input)
      ≡ kept ++ input
view_moved xs kept input h =
    view_at_end (overwrite xs 0 kept) 0 (length kept) (length kept) input (omega arith)
      (omega (arith, length-overwrite xs 0 kept (omega arith)))
    ∙ ap (λ t. t ++ input) (view_at_start xs kept)

pub if-both :
    (P : ProtocolParser → Type 0) (b : Bool) (x y : ProtocolParser)
    → (b ≡ true → P x)
    → (b ≡ false → P y)
    → P (if b then x else y)
if-both P true x y f g = f refl
if-both P false x y f g = g refl

-- The window of `q` is that of `p` with some bytes behind it.
unfoldable pub Extends : ProtocolParser → Bytes → ProtocolParser → Type 0
Extends p input q =
    IsWindow q × (view q ≡ view p ++ input) × (q.absolute_start_offset ≡ p.absolute_start_offset)

-- `append` on a parser whose window is in its buffer, whether the input fits behind the window, or the window
-- is moved to the start, or the buffer grows: the window stays in the buffer and is the old one with
-- the input behind it, and its absolute offset stays.
pub append-Extends :
    (p : ProtocolParser) (input : Bytes) → IsWindow p → Extends p input (append p input)
unfolding append Extends pending view
append-Extends p input w =
    if-both (Extends p input) (leb (length input) (length p.buffer - p.end)) _ _
      (λ fits. behind (ground (arith, fits)))
      (λ _.
        if-both (Extends p input)
          (ltb 0 p.start && leb (pending p + length input) (length p.buffer)) _ _
          (λ room. moved p.buffer (ground (arith, room)))
          (λ _. moved (zero_bytes (capacity_for (length p.buffer) (pending p + length input))) (
            omega (
              arith,
              le-capacity_for (length p.buffer) (pending p + length input),
              length-zero_bytes (capacity_for (length p.buffer) (pending p + length input)),
            ))))
  where
    behind :
        length input ≤ length p.buffer - p.end
        → Extends p input
            (record p { buffer = overwrite p.buffer p.end input; end = p.end + length input })
    behind fits = (
      record {
        ordered = omega (arith, w.ordered);
        in_buffer = omega (
          arith,
          w.in_buffer,
          length-overwrite p.buffer p.end input (omega (arith, w.in_buffer)),
        );
      },
      ap (λ k. take k (drop p.start (overwrite p.buffer p.end input))) (omega (arith, w.ordered))
          ∙ view_at_end p.buffer p.start (p.end - p.start) p.end input (omega (arith, w.ordered))
              (omega (arith, w.ordered, w.in_buffer)),
      refl,
    )

    moved :
        (buffer : Bytes)
        → pending p + length input ≤ length buffer
        → Extends p input (record p {
          buffer = overwrite (overwrite buffer 0 (view p)) (pending p) input;
          start = 0;
          end = pending p + length input;
        })
    moved buffer room =
        let size = length-view p w in
        let inner = length-overwrite buffer 0 (view p) (omega (arith, size)) in
        (
          record {
            ordered = omega arith;
            in_buffer = omega (
              arith,
              inner,
              length-overwrite (overwrite buffer 0 (view p)) (pending p) input
                  (omega (arith, inner)),
            );
          },
          ap (λ k. take k (overwrite (overwrite buffer 0 (view p)) (pending p) input)) (omega arith)
              ∙ subst
                  (λ k.
                    take (k + length input) (overwrite (overwrite buffer 0 (view p)) k input)
                    ≡ view p ++ input)
                  size (view_moved buffer (view p) input (omega (arith, size))),
          refl,
        )
