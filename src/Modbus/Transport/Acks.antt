-- ===== src/Modbus/Transport/Acks.antt =====
-- Requests and the responses of a device that follows the protocol: the acknowledgement of a write
-- repeats the first five bytes of its PDU, and a read of registers sends each as two bytes.
use bbcom.Base.{
  ℕ, ◌*◌, ◌≤◌, ◌<◌, ◌≡◌, ◌⊎◌, inr, refl, ap, ◌∙◌, some, List, [], ◌∷◌, ok, arith, length, take,
  take-all, result-bind, ok-injective, subst, ap₂,
}
use bbcom.Base.Number.{Number, of_ℕ}
use bbcom.Modbus.Core.{
  Bytes, low_byte, high_byte, assert_u16, assert_quantity, assert_u16-ok, assert_quantity-ok,
  write_registers_limit,
}
use bbcom.Modbus.Request.{build_write_multiple_registers_pdu, register_bytes}
use bbcom.Modbus.Response.{read_regs, write_ack, words, parse_pdu}
use bbcom.Modbus.Transport.{rtu, with_crc, parse_frame}
use bbcom.Modbus.Transport.Frames.{parse_frame-with_crc}

-- What a five-byte PDU of a multiple write says is read back.
ack-words :
    (slave fc s c : ℕ)
    → (fc ≡ 0x0f) ⊎ (fc ≡ 0x10)
    → s < 65536
    → c < 65536
    → parse_pdu slave (fc ∷ high_byte s ∷ low_byte s ∷ high_byte c ∷ low_byte c ∷ [])
      ≡ some (write_ack slave fc s c)
unfolding parse_pdu
ack-words slave fc s c h hs hc = ground arith

-- The acknowledgement of every request that the multiple-register builder accepts is read as one for
-- the requested start and the number of the values.
pub registers-ack :
    (slave : ℕ) (start : Number) (values : List Number) {body : Bytes}
    → build_write_multiple_registers_pdu start values ≡ ok body
    → (s : ℕ) × (start ≡ of_ℕ s)
      × (parse_frame rtu (with_crc (low_byte slave ∷ take 5 body))
          ≡ some (write_ack (low_byte slave) 0x10 s (length values)))
unfolding build_write_multiple_registers_pdu
registers-ack slave start values e =
    let (s, e₁, es) = result-bind (assert_u16 start) e in
    let (c, e₂, ec) =
      result-bind (assert_quantity (of_ℕ (length values)) write_registers_limit) e₁ in
    let (payload, e₃, ep) = result-bind (register_bytes values) e₂ in
    let (start_is, s_small) = assert_u16-ok start es in
    let (c_is, _, c_small) = assert_quantity-ok (length values) write_registers_limit ec in
    (
      s,
      start_is,
      subst
          (λ b.
            parse_frame rtu (with_crc (low_byte slave ∷ take 5 b))
            ≡ some (write_ack (low_byte slave) 0x10 s (length values)))
          (ok-injective e₃)
          (parse_frame-with_crc (low_byte slave) 0x10 _
            ∙ ack-words (low_byte slave) 0x10 s c (inr refl) s_small (omega (arith, c_is, c_small))
            ∙ ap (λ k. some (write_ack (low_byte slave) 0x10 s k)) c_is),
    )

-- Each register as the two bytes that a device sends, high byte first.
abbrev pub word_bytes : List ℕ → Bytes
word_bytes [] = []
word_bytes (r ∷ regs) = high_byte r ∷ low_byte r ∷ word_bytes regs

abbrev pub AreWords : List ℕ → Type 0
AreWords [] = Unit {0}
AreWords (r ∷ regs) = (r < 65536) × AreWords regs

words-word_bytes : (regs : List ℕ) → AreWords regs → words (word_bytes regs) ≡ regs
unfolding words
words-word_bytes [] h = refl
words-word_bytes (r ∷ regs) h = ap₂ ◌∷◌ (omega arith) (words-word_bytes regs h.1)

length-word_bytes : (regs : List ℕ) → length (word_bytes regs) ≡ 2 * length regs
length-word_bytes [] = refl
length-word_bytes (r ∷ regs) = omega (arith, length-word_bytes regs)

-- The response to a read of at most 125 registers is read as those registers.
pub registers-read :
    (slave fc : ℕ) (regs : List ℕ)
    → (fc ≡ 0x03) ⊎ (fc ≡ 0x04)
    → length regs ≤ 125
    → AreWords regs
    → parse_frame rtu (with_crc (slave ∷ fc ∷ 2 * length regs ∷ word_bytes regs))
      ≡ some (read_regs slave fc regs)
unfolding parse_pdu
registers-read slave fc regs hf hn hw =
    parse_frame-with_crc slave fc (2 * length regs ∷ word_bytes regs)
    ∙ ground (
      arith,
      length-word_bytes regs,
      take-all (2 * length regs) (word_bytes regs),
      words-word_bytes regs hw,
    )
