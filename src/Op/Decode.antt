-- ===== src/Op/Decode.antt =====
-- The decoders of src/num8lora_op.c. The result holds the return value, then what the two output
-- structs hold afterwards; the header struct goes in as it was before the call.
use num8_lup.Base.{ℕ, ◌-◌, Bool, true, false, not, ◌||◌, ◌&&◌, List, ltb, ◌==◌, if◌then◌else◌}
use num8_lup.Base.{length, get_or, take, drop}
use num8_lup.Codec.{read_u16_le, read_u32_le, crc16_ccitt_false}
use num8_lup.Op.Types.{
  protocol_version, msg_beacon, msg_request, msg_data, msg_ack, msg_nack, op_add, op_remove,
  max_value, CommonHeader, BeaconPayload, RequestPayload, DataPayload, AckPayload, NackPayload,
  clear_common, clear_beacon, clear_request, clear_data, clear_ack, clear_nack,
}

unfoldable pub decode_common_header : List ℕ → Bool × CommonHeader
decode_common_header b = if ltb (length b) 8 then (false, clear_common) else (
  true,
  record {
    protocol_version = get_or b 0 0;
    msg_type = get_or b 1 0;
    sender_id = read_u16_le (drop 2 b);
    receiver_id = read_u16_le (drop 4 b);
    seq = read_u16_le (drop 6 b);
  },
)

unfoldable pub validate_frame_crc : List ℕ → Bool
validate_frame_crc b =
    if ltb (length b) 10
    then false
    else read_u16_le (drop (length b - 2) b) == crc16_ccitt_false (take (length b - 2) b)

-- The header tests behind the CRC's.
unfoldable pub header_fits : ℕ → CommonHeader → Bool
header_fits expected_type h =
    if not (h.protocol_version == protocol_version) || not (h.msg_type == expected_type)
    then false
    else if h.sender_id == 0
    then false
    else if expected_type == msg_beacon
    then h.receiver_id == 0
    else not (h.receiver_id == 0)

unfoldable pub validate_common_header : List ℕ → ℕ → CommonHeader → Bool × CommonHeader
unfolding decode_common_header header_fits
validate_common_header b expected_type h =
    if validate_frame_crc b
    then (let (decoded, h') = decode_common_header b in
        (decoded && header_fits expected_type h', h'))
    else (false, h)

unfoldable pub decode_beacon : List ℕ → CommonHeader → Bool × CommonHeader × BeaconPayload
unfolding validate_common_header
decode_beacon b h =
    if not (length b == 18)
    then (false, h, clear_beacon)
    else let (valid, h') = validate_common_header b msg_beacon h in
      let p : BeaconPayload = record {
        stream_id = read_u32_le (drop 8 b);
        latest_op_id = read_u32_le (drop 12 b);
      } in
      if not valid
      then (false, h', clear_beacon)
      else (not (p.stream_id == 0) && not (p.latest_op_id == 0), h', p)

unfoldable pub decode_request : List ℕ → CommonHeader → Bool × CommonHeader × RequestPayload
unfolding validate_common_header
decode_request b h =
    if not (length b == 18)
    then (false, h, clear_request)
    else let (valid, h') = validate_common_header b msg_request h in
      let p : RequestPayload = record {
        stream_id = read_u32_le (drop 8 b);
        next_needed_op_id = read_u32_le (drop 12 b);
      } in
      if not valid
      then (false, h', clear_request)
      else (not (p.stream_id == 0) && not (p.next_needed_op_id == 0), h', p)

unfoldable pub read_data : List ℕ → DataPayload
read_data b = record {
  stream_id = read_u32_le (drop 8 b);
  op_id = read_u32_le (drop 12 b);
  op_type = get_or b 16 0;
  reserved0 = get_or b 17 0;
  reserved1 = read_u16_le (drop 18 b);
  value = read_u32_le (drop 20 b);
}

unfoldable pub decode_data : List ℕ → CommonHeader → Bool × CommonHeader × DataPayload
unfolding validate_common_header read_data
decode_data b h =
    if not (length b == 26)
    then (false, h, clear_data)
    else let (valid, h') = validate_common_header b msg_data h in
      let p = read_data b in
      if not valid
      then (false, h', clear_data)
      else if p.stream_id == 0 || p.op_id == 0 || not (p.reserved0 == 0) || not (p.reserved1 == 0)
      then (false, h', clear_data)
      else if not (p.op_type == op_add) && not (p.op_type == op_remove)
      then (false, h', clear_data)
      else if ltb max_value p.value
      then (false, h', clear_data)
      else (true, h', p)

unfoldable pub decode_ack : List ℕ → CommonHeader → Bool × CommonHeader × AckPayload
unfolding validate_common_header
decode_ack b h =
    if not (length b == 18)
    then (false, h, clear_ack)
    else let (valid, h') = validate_common_header b msg_ack h in
      let p : AckPayload = record {
        stream_id = read_u32_le (drop 8 b);
        ack_op_id = read_u32_le (drop 12 b);
      } in
      if not valid
      then (false, h', clear_ack)
      else (not (p.stream_id == 0) && not (p.ack_op_id == 0), h', p)

unfoldable pub decode_nack : List ℕ → CommonHeader → Bool × CommonHeader × NackPayload
unfolding validate_common_header
decode_nack b h =
    if not (length b == 22)
    then (false, h, clear_nack)
    else let (valid, h') = validate_common_header b msg_nack h in
      let p : NackPayload = record {
        stream_id = read_u32_le (drop 8 b);
        error_code = read_u16_le (drop 12 b);
        detail = read_u16_le (drop 14 b);
        expected_next_op_id = read_u32_le (drop 16 b);
      } in
      if not valid
      then (false, h', clear_nack)
      else (not (p.stream_id == 0) && not (p.expected_next_op_id == 0), h', p)
