-- ===== src/Modbus/Transport.antt =====
-- src/lib/modbus/modbus-transport.ts: framing of requests, and the scanner of received bytes.
pub mod Frames
pub mod Scan
pub mod Acks
pub mod Found
use bbcom.Base.{
  ℕ, zero, suc, ◌+◌, ◌-◌, ◌*◌, ◌/◌, ◌%◌, ◌≤◌, ◌<◌, ◌≡◌, Bool, true, false, not, ◌&&◌, ◌||◌, Option,
  none, some, List, [], ◌∷◌, ◌++◌, ok, err, ◌>>=◌, ltb, leb, ◌==◌, if◌then◌else◌, length, take,
  drop,
}
use bbcom.Base.Number.{Number, is_integer, below, above}
use bbcom.Modbus.Core.{Bytes, Fallible, high_byte, low_byte, is_exception_fc, integer_value}
use bbcom.Modbus.Crc.{at, crc16_modbus}
use bbcom.Modbus.Request.{
  build_read_request_pdu, build_write_single_coil_pdu, build_write_single_register_pdu,
  build_write_multiple_coils_pdu, build_write_multiple_registers_pdu,
}
use bbcom.Modbus.Response.{Response, parse_response}

pub data Transport : Type 0 where
  rtu pdu : Transport

unfoldable pub with_crc : Bytes → Bytes
with_crc addr_and_pdu =
    let crc = crc16_modbus addr_and_pdu in addr_and_pdu ++ (low_byte crc ∷ high_byte crc ∷ [])

unfoldable pub frame_request : Transport → ℕ → Bytes → Bytes
frame_request pdu slave body = body
frame_request rtu slave body = with_crc (low_byte slave ∷ body)

unfoldable pub read_request : Transport → ℕ → ℕ → Number → Number → Fallible Bytes
read_request transport slave fc start count = do
  body ← build_read_request_pdu fc start count
  ok (frame_request transport slave body)

unfoldable pub write_single_coil_request : Transport → ℕ → Number → Bool → Fallible Bytes
write_single_coil_request transport slave addr on = do
  body ← build_write_single_coil_pdu addr on
  ok (frame_request transport slave body)

unfoldable pub write_single_register_request : Transport → ℕ → Number → Number → Fallible Bytes
write_single_register_request transport slave addr value = do
  body ← build_write_single_register_pdu addr value
  ok (frame_request transport slave body)

unfoldable pub write_multiple_coils_request : Transport → ℕ → Number → List Bool → Fallible Bytes
write_multiple_coils_request transport slave start bits = do
  body ← build_write_multiple_coils_pdu start bits
  ok (frame_request transport slave body)

unfoldable pub write_multiple_registers_request :
    Transport → ℕ → Number → List Number → Fallible Bytes
write_multiple_registers_request transport slave start values = do
  body ← build_write_multiple_registers_pdu start values
  ok (frame_request transport slave body)

pub record ScanResult : Type 0 where
  pub frames : List Bytes
  pub remainder : Bytes

-- `buf.subarray(start, end)`
abbrev pub subarray : Bytes → ℕ → ℕ → Bytes
subarray buf start end = take (end - start) (drop start buf)

-- The byte counts that a response can have.
unfoldable pub rtu_response_length : Bytes → ℕ → Option ℕ
rtu_response_length buf offset =
    let fc = at buf (offset + 1) in
    let byte_count = at buf (offset + 2) in
    if is_exception_fc fc
    then some 5
    else if fc == 0x05 || fc == 0x06 || fc == 0x0f || fc == 0x10
    then some 8
    else if not (fc == 0x01) && not (fc == 0x02) && not (fc == 0x03) && not (fc == 0x04)
    then none
    else if ltb byte_count 1 || ltb 250 byte_count
    then none
    else if (fc == 0x03 || fc == 0x04) && not (byte_count % 2 == 0)
    then none
    else some (byte_count + 5)

-- The length of the frame that stands at `offset`, if the scanner takes it: `null`, too long and a
-- wrong CRC are `none`.
unfoldable pub frame_at : Bytes → ℕ → Option ℕ
frame_at buf offset = elim (rtu_response_length buf offset) [
  | none ↦ none
  | some n ↦
      let crc = crc16_modbus (subarray buf offset (offset + n - 2)) in
      if ltb (length buf) (offset + n)
      then none
      else if not (low_byte crc == at buf (offset + n - 2))
          || not (crc / 256 == at buf (offset + n - 1))
      then none
      else some n
]

-- The RTU loop, with the frames and the value of `consumed` that it ends with. Every round moves
-- `offset`, so that a round for each byte of the buffer is enough.
unfoldable pub scan_rtu : ℕ → Bytes → ℕ → ℕ → List Bytes × ℕ
scan_rtu zero buf offset consumed = ([], consumed)
scan_rtu (suc rounds) buf offset consumed =
    let skip : List Bytes × ℕ = scan_rtu rounds buf (offset + 1) consumed in
    let done : List Bytes × ℕ = elim (frame_at buf offset) [
      | none ↦ skip
      | some n ↦
          let (frames, end) = scan_rtu rounds buf (offset + n) (offset + n) in
          (subarray buf offset (offset + n) ∷ frames, end)
    ] in
    if ltb (offset + 4) (length buf) then done else ([], consumed)

-- The length of the next frame of the PDU transport, if the loop does not break.
unfoldable pub pdu_frame_length : Bytes → ℕ → Option Number → Option ℕ
pdu_frame_length buf offset expected =
    if is_exception_fc (at buf offset)
    then (if ltb (length buf) (offset + 2) then none else some 2)
    else elim expected [
      | none ↦ none
      | some n ↦
          if not (is_integer n)
            || below n 1
            || above n 253
            || ltb (length buf) (offset + integer_value n)
          then none
          else some (integer_value n)
    ]

unfoldable pub scan_pdu : ℕ → Bytes → Option Number → ℕ → List Bytes × ℕ
scan_pdu zero buf expected offset = ([], offset)
scan_pdu (suc rounds) buf expected offset =
    let next : List Bytes × ℕ = elim (pdu_frame_length buf offset expected) [
      | none ↦ ([], offset)
      | some n ↦
          let (frames, end) = scan_pdu rounds buf expected (offset + n) in
          (subarray buf offset (offset + n) ∷ frames, end)
    ] in
    if ltb offset (length buf) then next else ([], offset)

unfoldable pub scan_response : Transport → Bytes → Option Number → ScanResult
scan_response pdu buf expected =
    let (frames, offset) = scan_pdu (length buf) buf expected 0 in
    record { frames = frames; remainder = drop offset buf }
scan_response rtu buf expected =
    let (frames, consumed) = scan_rtu (length buf) buf 0 0 in
    record { frames = frames; remainder = drop consumed buf }

abbrev pub pdu_default_slave : ℕ
pdu_default_slave = 1

unfoldable pub parse_frame : Transport → Bytes → Option Response
parse_frame pdu frame =
    parse_response false frame (record { pdu_only = true; slave = pdu_default_slave })
parse_frame rtu frame = parse_response true frame (record { pdu_only = false; slave = 0 })
