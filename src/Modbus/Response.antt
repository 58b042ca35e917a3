-- ===== src/Modbus/Response.antt =====
-- src/lib/modbus/modbus-core.ts: `parseResponse`. `null` is `none`.
use bbcom.Base.{
  ℕ, zero, suc, ◌+◌, ◌-◌, ◌*◌, ◌/◌, ◌%◌, Bool, true, false, not, ◌&&◌, ◌||◌, Option, none, some,
  List, [], ◌∷◌, ◌++◌, ltb, ◌==◌, if◌then◌else◌, length, take, drop,
}
use bbcom.Modbus.Core.{Bytes, is_exception_fc}
use bbcom.Modbus.Crc.{at, verify_crc}

pub data Response : Type 0 where
  read_bits : (slave fc : ℕ) → List Bool → Response
  read_regs : (slave fc : ℕ) → List ℕ → Response
  write_ack : (slave fc addr count : ℕ) → Response
  exception : (slave fc code : ℕ) → Response

pub record ParseOptions : Type 0 where
  pub pdu_only : Bool
  pub slave : ℕ

-- The `n` lowest bits of a byte, lowest first: `((b >> bit) & 1) === 1`.
abbrev pub bits_of : ℕ → ℕ → List Bool
bits_of zero b = []
bits_of (suc n) b = (b % 2 == 1) ∷ bits_of n (b / 2)

unfoldable pub unpack_bits : Bytes → List Bool
unpack_bits [] = []
unpack_bits (b ∷ bytes) = bits_of 8 b ++ unpack_bits bytes

-- `(pdu[2 + i] << 8) | pdu[2 + i + 1]`: the shifted byte and the other have no bit in common.
unfoldable pub words : Bytes → List ℕ
words [] = []
words (h ∷ []) = []
words (h ∷ l ∷ bytes) = (h * 256 + l) ∷ words bytes

parse_exception : ℕ → Bytes → Option Response
parse_exception slave pdu =
    if length pdu == 2 then some (exception slave (at pdu 0) (at pdu 1)) else none

parse_bits : ℕ → Bytes → Option Response
parse_bits slave pdu =
    if ltb (length pdu) 2 || not (length pdu == 2 + at pdu 1)
    then none
    else some (read_bits slave (at pdu 0) (unpack_bits (take (at pdu 1) (drop 2 pdu))))

parse_registers : ℕ → Bytes → Option Response
parse_registers slave pdu =
    if ltb (length pdu) 2 || not (length pdu == 2 + at pdu 1) || not (at pdu 1 % 2 == 0)
    then none
    else some (read_regs slave (at pdu 0) (words (take (at pdu 1) (drop 2 pdu))))

parse_single_echo : ℕ → Bytes → Option Response
parse_single_echo slave pdu =
    if length pdu == 5
    then some (write_ack slave (at pdu 0) (at pdu 1 * 256 + at pdu 2) 1)
    else none

parse_multiple_echo : ℕ → Bytes → Option Response
parse_multiple_echo slave pdu =
    if length pdu == 5
    then some (write_ack slave (at pdu 0) (at pdu 1 * 256 + at pdu 2) (at pdu 3 * 256 + at pdu 4))
    else none

-- The part of `parseResponse` that reads the PDU.
unfoldable pub parse_pdu : ℕ → Bytes → Option Response
unfolding parse_exception parse_bits parse_registers parse_single_echo parse_multiple_echo
parse_pdu slave pdu =
    let fc = at pdu 0 in
    if is_exception_fc fc
    then parse_exception slave pdu
    else if fc == 0x01 || fc == 0x02
    then parse_bits slave pdu
    else if fc == 0x03 || fc == 0x04
    then parse_registers slave pdu
    else if fc == 0x05 || fc == 0x06
    then parse_single_echo slave pdu
    else if fc == 0x0f || fc == 0x10
    then parse_multiple_echo slave pdu
    else none

min_length : Bool → Bool → ℕ
min_length true pdu_only = 4
min_length false true = 2
min_length false false = 3

unfoldable pub parse_response : Bool → Bytes → ParseOptions → Option Response
unfolding min_length
parse_response verify frame options =
    let pdu_only = not verify && options.pdu_only in
    let pdu_len = if verify then length frame - 2 else length frame in
    if ltb (length frame) (min_length verify pdu_only)
    then none
    else if verify && not (verify_crc frame)
    then none
    else if pdu_only
    then parse_pdu options.slave (take pdu_len frame)
    else parse_pdu (at frame 0) (drop 1 (take pdu_len frame))
