-- ===== src/Modbus/Request/Coils.antt =====
-- The coil packing of a write request is undone by the unpacking of a read response.
use Prim.Native.Nat.{bit_or}
use native.Mathlib.Nat.{pow-suc}
use bbcom.Base.{
  ℕ, zero, suc, ◌+◌, ◌-◌, ◌*◌, ◌/◌, ◌%◌, ◌^◌, ◌≤◌, ◌<◌, ◌≡◌, refl, sym, ap, ◌∙◌, Bool, true, false,
  ◌&&◌, List, [], ◌∷◌, ◌++◌, arith, ltb, leb, leb→le, ◌==◌, if◌then◌else◌, length, set, lt→ltb,
  length-set, append_assoc, length-append, Bool-cases, inl, inr, subst,
}
use bbcom.Base.Bits.{table, table-lookup, bit_or_next}
use bbcom.Base.{drop, result-bind, ok-injective, ok}
use bbcom.Base.Number.{Number, of_ℕ}
use bbcom.Modbus.Core.{
  Bytes, ceil_div, low_byte, assert_u16, assert_quantity, assert_quantity-ok, write_bits_limit,
}
use bbcom.Modbus.Crc.{at}
use bbcom.Modbus.Request.{zeros, pack_coils, build_write_multiple_coils_pdu}
use bbcom.Modbus.Response.{bits_of, unpack_bits}

same_bit : Bool → Bool → Bool
same_bit true b = b
same_bit false true = false
same_bit false false = true

same_bits : List Bool → List Bool → Bool
same_bits [] [] = true
same_bits [] (y ∷ ys) = false
same_bits (x ∷ xs) [] = false
same_bits (x ∷ xs) (y ∷ ys) = same_bit x y && same_bits xs ys

same_bit-eq : (x y : Bool) → same_bit x y ≡ true → x ≡ y
unfolding same_bit
same_bit-eq true y e = ground arith
same_bit-eq false true e = ground arith
same_bit-eq false false e = refl

same_bits-eq : (xs ys : List Bool) → same_bits xs ys ≡ true → xs ≡ ys
unfolding same_bits
same_bits-eq [] [] e = refl
same_bits-eq [] (y ∷ ys) e = cc
same_bits-eq (x ∷ xs) [] e = cc
same_bits-eq (x ∷ xs) (y ∷ ys) e = ground (arith, same_bit-eq x y, same_bits-eq xs ys)

set_bit_table :
    table
      (λ k.
        table
          (λ x.
            if ltb x (2 ^ k)
            then same_bits (bits_of 8 (x + 2 ^ k)) (set (bits_of 8 x) k true)
            else true)
          256)
      8
    ≡ true
unfolding table same_bits same_bit
set_bit_table = refl

set_bit :
    (k x : ℕ)
    → k < 8
    → x < 256
    → x < 2 ^ k
    → bits_of 8 (bit_or x (2 ^ k)) ≡ set (bits_of 8 x) k true
set_bit k x hk hx h =
    ap (bits_of 8) (bit_or_next k x hk hx h)
    ∙ same_bits-eq _ _
        (rw (lt→ltb x (2 ^ k) h) at (table-lookup _ x hx (table-lookup _ k hk set_bit_table)))

module _ {ℓ} {A : Type ℓ} where
  set-append_left :
      (xs ys : List A) (i : ℕ) (v : A) → i < length xs → set (xs ++ ys) i v ≡ set xs i v ++ ys
  set-append_left [] ys i v h = absurd (omega arith)
  set-append_left (x ∷ xs) ys zero v h = refl
  set-append_left (x ∷ xs) ys (suc i) v h = ap (◌∷◌ x) (set-append_left xs ys i v (omega arith))

  set-append_right :
      (xs ys : List A) (i j : ℕ) (v : A) → j ≡ length xs + i → set (xs ++ ys) j v ≡ xs ++ set ys i v
  set-append_right [] ys i j v e = ap (λ k. set ys k v) (omega arith)
  set-append_right (x ∷ xs) ys i zero v e = absurd (omega arith)
  set-append_right (x ∷ xs) ys i (suc j) v e =
      ap (◌∷◌ x) (set-append_right xs ys i j v (omega arith))

length-bits_of : (n b : ℕ) → length (bits_of n b) ≡ n
length-bits_of zero b = refl
length-bits_of (suc n) b = ap suc (length-bits_of n (b / 2))

-- Setting one bit of the packed bytes sets one of the unpacked bits.
unpack_bits-set :
    (packed : Bytes) (j k i : ℕ)
    → i ≡ 8 * j + k
    → k < 8
    → j < length packed
    → at packed j < 256
    → at packed j < 2 ^ k
    → unpack_bits (set packed j (bit_or (at packed j) (2 ^ k))) ≡ set (unpack_bits packed) i true
unfolding unpack_bits
unpack_bits-set [] j k i e hk hj hb h = absurd (omega arith)
unpack_bits-set (b ∷ packed) zero k i e hk hj hb h =
    let same : i ≡ k = omega arith in
    ap (λ l. l ++ unpack_bits packed)
      (set_bit k b hk hb h ∙ ap (λ n. set (bits_of 8 b) n true) (sym same))
    ∙ sym (
        set-append_left (bits_of 8 b) (unpack_bits packed) i true
          (omega (arith, length-bits_of 8 b)))
unpack_bits-set (b ∷ packed) (suc j) k i e hk hj hb h =
    ap (◌++◌ (bits_of 8 b)) (unpack_bits-set packed j k (8 * j + k) refl hk (omega arith) hb h)
    ∙ sym (
        set-append_right (bits_of 8 b) (unpack_bits packed) (8 * j + k) i true
          (omega (arith, length-bits_of 8 b)))

-- `bits` written over `target` from the index `i` on, where only a set bit changes anything.
overwrite : ℕ → List Bool → List Bool → List Bool
overwrite i [] target = target
overwrite i (b ∷ bits) target = overwrite (i + 1) bits (if b then set target i true else target)

-- The coils below `i` are written and no other: the byte of the coil `i` has nothing above its place
-- in it, and later bytes are 0.
record IsPacked (i : ℕ) (packed : Bytes) : Type 0 where
  here_small : at packed (i / 8) < 2 ^ (i % 8)
  rest_zero : (j : ℕ) → i / 8 < j → at packed j ≡ 0

at-set_self : (xs : Bytes) (i v : ℕ) → i < length xs → at (set xs i v) i ≡ v
at-set_self [] i v h = absurd (omega arith)
at-set_self (x ∷ xs) zero v h = refl
at-set_self (x ∷ xs) (suc i) v h = at-set_self xs i v (omega arith)

at-set_later : (xs : Bytes) (i j v : ℕ) → i < j → at (set xs i v) j ≡ at xs j
at-set_later [] i j v h = refl
at-set_later (x ∷ xs) i zero v h = absurd (omega arith)
at-set_later (x ∷ xs) zero (suc j) v h = refl
at-set_later (x ∷ xs) (suc i) (suc j) v h = at-set_later xs i j v (omega arith)

pow-lt-256 : (k : ℕ) → k < 8 → 2 ^ k ≤ 128
pow-lt-256 k h = leb→le (2 ^ k) 128 (table-lookup (λ n. leb (2 ^ n) 128) k h small)
  where
    small : table (λ n. leb (2 ^ n) 128) 8 ≡ true
    small = unfold table in refl

next-IsPacked :
    (i : ℕ) (packed packed' : Bytes)
    → IsPacked i packed
    → at packed' (i / 8) < 2 ^ (i % 8) + 2 ^ (i % 8)
    → ((j : ℕ) → i / 8 < j → at packed' j ≡ at packed j)
    → IsPacked (i + 1) packed'
next-IsPacked i packed packed' p h later = elim (Bool-cases (i % 8 == 7)) [
  | inl last ↦
      let e : (i + 1) / 8 ≡ i / 8 + 1 = ground arith in
      let m : (i + 1) % 8 ≡ 0 = ground arith in
      record {
        here_small =
            rw (e, m)
              (omega
                (arith, later (i / 8 + 1) (omega arith), p.rest_zero (i / 8 + 1) (omega arith)));
        rest_zero = λ j hj. later j (omega arith) ∙ p.rest_zero j (omega arith);
      }
  | inr inside ↦
      let e : (i + 1) / 8 ≡ i / 8 = ground arith in
      let m : (i + 1) % 8 ≡ suc (i % 8) = ground arith in
      record {
        here_small = rw (e, m) (omega (arith, pow-suc 2 (i % 8)));
        rest_zero = λ j hj. later j (omega arith) ∙ p.rest_zero j (omega arith);
      }
]

unpack_bits-pack_coils :
    (i : ℕ) (bits : List Bool) (packed : Bytes)
    → IsPacked i packed
    → i + length bits ≤ 8 * length packed
    → unpack_bits (pack_coils i bits packed) ≡ overwrite i bits (unpack_bits packed)
unfolding pack_coils overwrite
unpack_bits-pack_coils i [] packed p h = refl
unpack_bits-pack_coils i (false ∷ bits) packed p h =
    unpack_bits-pack_coils (i + 1) bits packed
      (next-IsPacked i packed packed p (omega (arith, p.here_small)) (λ j hj. refl)) (omega arith)
unpack_bits-pack_coils i (true ∷ bits) packed p h =
    let byte : at packed (i / 8) < 128 =
      omega (arith, p.here_small, pow-lt-256 (i % 8) (omega arith)) in
    let v = bit_or (at packed (i / 8)) (2 ^ (i % 8)) in
    let wrote = at-set_self packed (i / 8) v (omega arith) in
    unpack_bits-pack_coils (i + 1) bits (set packed (i / 8) v)
      (next-IsPacked i packed (set packed (i / 8) v) p
        (omega (
          arith,
          wrote,
          p.here_small,
          bit_or_next (i % 8) (at packed (i / 8)) (omega arith) (omega arith) p.here_small,
        ))
        (λ j hj. at-set_later packed (i / 8) j v hj))
      (omega (arith, length-set packed (i / 8) v))
    ∙ ap (overwrite (i + 1) bits) (
        unpack_bits-set packed (i / 8) (i % 8) i (omega arith) (omega arith) (omega arith)
          (omega arith) p.here_small)

abbrev pub falses : ℕ → List Bool
falses zero = []
falses (suc n) = false ∷ falses n

unpack_bits-zeros : (n m : ℕ) → m ≡ 8 * n → unpack_bits (zeros n) ≡ falses m
unfolding unpack_bits
unpack_bits-zeros zero zero e = refl
unpack_bits-zeros zero (suc m) e = absurd (omega arith)
unpack_bits-zeros (suc n) m e =
    ap (λ l. falses 8 ++ l) (unpack_bits-zeros n (8 * n) refl) ∙ eight_more (8 * n) m (omega arith)
  where
    eight_more : (k m : ℕ) → m ≡ 8 + k → falses 8 ++ falses k ≡ falses m
    eight_more k m e =
        let e' : suc (suc (suc (suc (suc (suc (suc (suc k))))))) ≡ m = omega arith in ap falses e'

overwrite-falses :
    (bits pre : List Bool) (i m : ℕ)
    → i ≡ length pre
    → overwrite i bits (pre ++ falses (length bits + m)) ≡ pre ++ (bits ++ falses m)
unfolding overwrite
overwrite-falses [] pre i m e = ap (λ n. pre ++ falses n) (omega arith)
overwrite-falses (b ∷ bits) pre i m e =
    ap (overwrite (i + 1) bits) (written b)
    ∙ overwrite-falses bits (pre ++ b ∷ []) (i + 1) m (omega (arith, length-append pre (b ∷ [])))
    ∙ append_assoc pre (b ∷ []) (bits ++ falses m)
  where
    one_more : falses (suc (length bits) + m) ≡ false ∷ falses (length bits + m)
    one_more = let e' : suc (length bits) + m ≡ suc (length bits + m) = omega arith in ap falses e'

    written :
        (c : Bool)
        → (if c
            then set (pre ++ falses (suc (length bits) + m)) i true
            else pre ++ falses (suc (length bits) + m))
          ≡ (pre ++ c ∷ []) ++ falses (length bits + m)
    written true =
        ap (λ l. set (pre ++ l) i true) one_more
        ∙ set-append_right pre (false ∷ falses (length bits + m)) 0 i true (omega arith)
        ∙ sym (append_assoc pre (true ∷ []) _)
    written false = ap (◌++◌ pre) one_more ∙ sym (append_assoc pre (false ∷ []) _)

length-zeros : (n : ℕ) → length (zeros n) ≡ n
length-zeros zero = refl
length-zeros (suc n) = ap suc (length-zeros n)

at-zeros : (n j : ℕ) → at (zeros n) j ≡ 0
at-zeros zero j = refl
at-zeros (suc n) zero = refl
at-zeros (suc n) (suc j) = at-zeros n j

-- Unpacking the packed coils gives the coils, and then unset bits up to the end of the last byte.
pub unpack-pack :
    (bits : List Bool)
    → unpack_bits (pack_coils 0 bits (zeros (ceil_div (length bits) 8)))
      ≡ bits ++ falses (8 * ceil_div (length bits) 8 - length bits)
unpack-pack bits =
    let n = ceil_div (length bits) 8 in
    let pad = 8 * n - length bits in
    unpack_bits-pack_coils 0 bits (zeros n)
      (record { here_small = omega (arith, at-zeros n 0); rest_zero = λ j hj. at-zeros n j })
      (omega (arith, length-zeros n))
    ∙ ap (overwrite 0 bits) (unpack_bits-zeros n (length bits + pad) (omega arith))
    ∙ overwrite-falses bits [] 0 pad refl

length-pack_coils :
    (i : ℕ) (bits : List Bool) (packed : Bytes) → length (pack_coils i bits packed) ≡ length packed
unfolding pack_coils
length-pack_coils i [] packed = refl
length-pack_coils i (true ∷ bits) packed =
    length-pack_coils (i + 1) bits _ ∙ length-set packed (i / 8) _
length-pack_coils i (false ∷ bits) packed = length-pack_coils (i + 1) bits packed

payload_of :
    (c : ℕ) (bits : List Bool)
    → c ≡ length bits
    → c ≤ 1968
    → let payload = pack_coils 0 bits (zeros (ceil_div c 8)) in
      (low_byte (ceil_div c 8) ≡ length payload)
      × (unpack_bits payload ≡ bits ++ falses (8 * length payload - length bits))
payload_of c bits e h =
    let size : length (pack_coils 0 bits (zeros (ceil_div c 8))) ≡ ceil_div c 8 =
      length-pack_coils 0 bits (zeros (ceil_div c 8)) ∙ length-zeros (ceil_div c 8) in
    (omega (arith, size), rw (size, e) (unpack-pack bits))

-- In every request that the coil builder accepts, the byte count is the number of the data bytes, and
-- unpacking these as the bits of a read response gives back the coils, followed by unset bits up to
-- the end of the last byte.
pub coils-unpack :
    (start : Number) (bits : List Bool) {body : Bytes}
    → build_write_multiple_coils_pdu start bits ≡ ok body
    → (at body 5 ≡ length (drop 6 body))
      × (unpack_bits (drop 6 body) ≡ bits ++ falses (8 * length (drop 6 body) - length bits))
unfolding build_write_multiple_coils_pdu
coils-unpack start bits e =
    let (s, e₁, es) = result-bind (assert_u16 start) e in
    let (c, e₂, ec) = result-bind (assert_quantity (of_ℕ (length bits)) write_bits_limit) e₁ in
    let (c_is, _, c_small) = assert_quantity-ok (length bits) write_bits_limit ec in
    subst
      (λ b.
        (at b 5 ≡ length (drop 6 b))
        × (unpack_bits (drop 6 b) ≡ bits ++ falses (8 * length (drop 6 b) - length bits)))
      (ok-injective e₂) (payload_of c bits c_is (omega (arith, c_is, c_small)))
