-- ===== src/Modbus/Request.antt =====
-- src/lib/modbus/modbus-core.ts: the builders of request PDUs. A builder throws a RangeError on an
-- argument out of range. Storing into a `Uint8Array` keeps the low byte.
pub mod Coils
use Prim.Native.Nat.{bit_or}
use bbcom.Base.{
  ℕ, zero, suc, ◌+◌, ◌-◌, ◌*◌, ◌/◌, ◌%◌, ◌^◌, ◌≤◌, ◌<◌, ◌≡◌, Bool, true, false, List, [], ◌∷◌, ◌++◌,
  ok, err, ◌>>=◌, if◌then◌else◌, length, set,
}
use bbcom.Base.Number.{Number, of_ℕ}
use bbcom.Modbus.Core.{
  Bytes, Fallible, range_error, is_read_fc, is_bit_fc, read_bits_limit, read_registers_limit,
  write_bits_limit, write_registers_limit, high_byte, low_byte, assert_u16, assert_quantity,
  ceil_div,
}
use bbcom.Modbus.Crc.{at}

unfoldable pub build_read_request_pdu : ℕ → Number → Number → Fallible Bytes
build_read_request_pdu fc start count =
    if is_read_fc fc
    then (do
      s ← assert_u16 start
      c ← assert_quantity count (if is_bit_fc fc then read_bits_limit else read_registers_limit)
      ok (fc ∷ high_byte s ∷ low_byte s ∷ high_byte c ∷ low_byte c ∷ []))
    else err range_error

unfoldable pub build_write_single_coil_pdu : Number → Bool → Fallible Bytes
build_write_single_coil_pdu addr on = do
  a ← assert_u16 addr
  ok (0x05 ∷ high_byte a ∷ low_byte a ∷ (if on then 0xff else 0x00) ∷ 0x00 ∷ [])

unfoldable pub build_write_single_register_pdu : Number → Number → Fallible Bytes
build_write_single_register_pdu addr value = do
  a ← assert_u16 addr
  v ← assert_u16 value
  ok (0x06 ∷ high_byte a ∷ low_byte a ∷ high_byte v ∷ low_byte v ∷ [])

-- `new Uint8Array(n)`
abbrev pub zeros : ℕ → Bytes
zeros zero = []
zeros (suc n) = 0 ∷ zeros n

-- `for (i …) if (bits[i]) data[i >> 3] |= 1 << (i & 7)`, from the index `i` on.
unfoldable pub pack_coils : ℕ → List Bool → Bytes → Bytes
pack_coils i [] packed = packed
pack_coils i (b ∷ bits) packed =
    pack_coils (i + 1) bits
      (if b then set packed (i / 8) (bit_or (at packed (i / 8)) (2 ^ (i % 8))) else packed)

unfoldable pub build_write_multiple_coils_pdu : Number → List Bool → Fallible Bytes
build_write_multiple_coils_pdu start bits = do
  s ← assert_u16 start
  c ← assert_quantity (of_ℕ (length bits)) write_bits_limit
  let byte_count = ceil_div c 8
  ok (
      0x0f
      ∷ high_byte s
      ∷ low_byte s
      ∷ high_byte c
      ∷ low_byte c
      ∷ low_byte byte_count
      ∷ pack_coils 0 bits (zeros byte_count))

-- The loop over the values, which checks each of them.
unfoldable pub register_bytes : List Number → Fallible Bytes
register_bytes [] = ok []
register_bytes (x ∷ values) = do
  v ← assert_u16 x
  rest ← register_bytes values
  ok (high_byte v ∷ low_byte v ∷ rest)

unfoldable pub build_write_multiple_registers_pdu : Number → List Number → Fallible Bytes
build_write_multiple_registers_pdu start values = do
  s ← assert_u16 start
  c ← assert_quantity (of_ℕ (length values)) write_registers_limit
  payload ← register_bytes values
  ok (0x10 ∷ high_byte s ∷ low_byte s ∷ high_byte c ∷ low_byte c ∷ low_byte (c * 2) ∷ payload)
