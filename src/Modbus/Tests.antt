-- ===== src/Modbus/Tests.antt =====
-- The Modbus core at concrete inputs.
use mathlib.Core.List.{foldl}
use bbcom.Base.{
  ℕ, ◌+◌, ◌-◌, ◌*◌, ◌≤◌, ◌<◌, ◌≡◌, inl, refl, Bool, true, false, none, some, List, [], ◌∷◌, ◌++◌,
  ok, arith, length, map, take, drop,
}
use bbcom.Base.Number.{Number, pos, negsuc, finite, of_ℕ}
use bbcom.Modbus.Core.{
  Bytes, int8, int32_le, register_span, register_count_for_values, max_value_count_for_registers,
  register_count-max_value_count, low_byte, assert_u16, assert_quantity,
}
use bbcom.Modbus.Crc.{
  at, crc_round, crc_rounds, crc_loop, crc16_modbus, crc16_modbus_fold_byte, crc16_modbus-foldl,
}
use bbcom.Modbus.Request.{
  pack_coils, register_bytes, build_write_multiple_coils_pdu, build_write_multiple_registers_pdu,
}
use bbcom.Modbus.Request.Coils.{falses, coils-unpack}
use bbcom.Modbus.Response.{read_regs, write_ack, unpack_bits, parse_pdu}
use bbcom.Modbus.Transport.{rtu, with_crc, parse_frame, scan_response}
use bbcom.Modbus.Transport.Frames.{parse_frame-with_crc}
use bbcom.Modbus.Transport.Acks.{registers-ack, registers-read, word_bytes}
use bbcom.Modbus.Transport.Found.{Found, scan_response-Found}
use bbcom.Modbus.Value.{Doubles, decode_value, encode_value}
use bbcom.Modbus.Value.Blocks.{encode_values, decode_values, padded, decode_values-encode_values}
use bbcom.Modbus.Value.RoundTrip.{decode_value-encode_value, encode_value-decode_value}

-- The standard vector of the comment on `crc16Modbus`.
crc_vector : crc16_modbus (0x01 ∷ 0x04 ∷ 0x02 ∷ 0x12 ∷ 0x34 ∷ []) ≡ 0x47b4
unfolding crc16_modbus crc_loop crc_rounds crc_round
crc_vector = refl

crc16_modbus-foldl_example :
    (crc16_modbus (0x01 ∷ 0x04 ∷ []) ≡ foldl crc16_modbus_fold_byte 0xffff (0x01 ∷ 0x04 ∷ []))
    × (crc16_modbus (0x01 ∷ 0x04 ∷ []) < 65536)
crc16_modbus-foldl_example = crc16_modbus-foldl (0x01 ∷ 0x04 ∷ []) (omega arith)

register_count-max_value_count_example :
    (register_count_for_values int32_le (max_value_count_for_registers int32_le 125) ≤ 125)
    × (125 < register_count_for_values int32_le (max_value_count_for_registers int32_le 125 + 1))
register_count-max_value_count_example = register_count-max_value_count int32_le 125 (omega arith)

abbrev coils : List Bool
coils = true ∷ false ∷ true ∷ true ∷ false ∷ false ∷ false ∷ false ∷ false ∷ true ∷ []

abbrev coil_request : Bytes
coil_request = 0x0f ∷ 0 ∷ 19 ∷ 0 ∷ 10 ∷ 2 ∷ 0x0d ∷ 0x02 ∷ []

coil_request_lem : build_write_multiple_coils_pdu (of_ℕ 19) coils ≡ ok coil_request
unfolding build_write_multiple_coils_pdu assert_u16 assert_quantity pack_coils
coil_request_lem = refl

coils-unpack_example :
    (at coil_request 5 ≡ length (drop 6 coil_request))
    × (unpack_bits (drop 6 coil_request)
        ≡ coils ++ falses (8 * length (drop 6 coil_request) - length coils))
coils-unpack_example = coils-unpack (of_ℕ 19) coils coil_request_lem

abbrev register_request : Bytes
register_request = 0x10 ∷ 1 ∷ 2 ∷ 0 ∷ 2 ∷ 4 ∷ 0 ∷ 7 ∷ 255 ∷ 255 ∷ []

register_request_lem :
    build_write_multiple_registers_pdu (of_ℕ 0x102) (of_ℕ 7 ∷ of_ℕ 0xffff ∷ [])
    ≡ ok register_request
unfolding build_write_multiple_registers_pdu assert_u16 assert_quantity register_bytes
register_request_lem = refl

registers-ack_example :
    (s : ℕ) × (of_ℕ 0x102 ≡ of_ℕ s)
    × (parse_frame rtu (with_crc (low_byte 5 ∷ take 5 register_request))
        ≡ some (write_ack (low_byte 5) 0x10 s 2))
registers-ack_example =
    registers-ack 5 (of_ℕ 0x102) (of_ℕ 7 ∷ of_ℕ 0xffff ∷ []) register_request_lem

registers-read_example :
    parse_frame rtu (with_crc (5 ∷ 3 ∷ 4 ∷ word_bytes (513 ∷ 7 ∷ [])))
    ≡ some (read_regs 5 3 (513 ∷ 7 ∷ []))
registers-read_example = registers-read 5 3 (513 ∷ 7 ∷ []) (inl refl) (omega arith) (omega arith)

parse_frame-with_crc_example :
    parse_frame rtu (with_crc (5 ∷ 0x83 ∷ 2 ∷ [])) ≡ parse_pdu 5 (0x83 ∷ 2 ∷ [])
parse_frame-with_crc_example = parse_frame-with_crc 5 0x83 (2 ∷ [])

-- Two noise bytes before an exception response.
abbrev noisy : Bytes
noisy = 0 ∷ 0xff ∷ 5 ∷ 0x83 ∷ 2 ∷ 0x81 ∷ 0x30 ∷ 9 ∷ []

scan_response-Found_example :
    (end : ℕ) × Found noisy 0 (scan_response rtu noisy none).frames end
    × ((scan_response rtu noisy none).remainder ≡ drop end noisy)
scan_response-Found_example = scan_response-Found noisy none

-- Numbers with binary32 left out: its two conversions are never called by the integer types.
abbrev pub numbers : Doubles
numbers = record {
  Double = Number;
  number = λ d. d;
  of_ℤ = λ z. finite z false;
  decode_float32 = λ hi lo. of_ℕ (hi * 65536 + lo);
  encode_float32 = λ d. (0, 0);
  number-pos = λ n h. refl;
  number-negsuc = λ n h. refl;
}

decode_value-encode_value_example :
    (regs : List ℕ) × (encode_value numbers int32_le (finite (negsuc 69999) false) ≡ ok regs)
    × (length regs ≡ register_span int32_le)
    × (decode_value numbers int32_le regs ≡ finite (negsuc 69999) false)
decode_value-encode_value_example =
    decode_value-encode_value numbers int32_le (finite (negsuc 69999) false) (negsuc 69999) refl
      (omega arith)

encode_value-decode_value_example :
    encode_value numbers int32_le (decode_value numbers int32_le (61072 ∷ 65534 ∷ []))
    ≡ ok (61072 ∷ 65534 ∷ [])
encode_value-decode_value_example =
    encode_value-decode_value numbers int32_le (61072 ∷ 65534 ∷ []) (omega arith)

-- An odd number of signed bytes takes a zero more.
decode_values-encode_values_example :
    (regs : List ℕ) × (encode_values numbers int8
        (finite (negsuc 0) false ∷ of_ℕ 7 ∷ finite (negsuc 127) false ∷ [])
      ≡ ok regs)
    × (length regs ≡ register_count_for_values int8 3)
    × (decode_values numbers int8 regs
        ≡ map numbers.of_ℤ (padded int8 (negsuc 0 ∷ pos 7 ∷ negsuc 127 ∷ [])))
decode_values-encode_values_example =
    decode_values-encode_values numbers int8
      (finite (negsuc 0) false ∷ of_ℕ 7 ∷ finite (negsuc 127) false ∷ [])
      (negsuc 0 ∷ pos 7 ∷ negsuc 127 ∷ []) (refl, (refl, (refl, tt)))
      (omega arith, (omega arith, (omega arith, tt))) (omega arith)
