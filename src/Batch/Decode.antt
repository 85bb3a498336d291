-- ===== src/Batch/Decode.antt =====
-- The decoders of src/num8lora.c. The result holds the return value, then what the output structs
-- hold afterwards; the header struct goes in as it was before the call.
use num8_lup.Base.{
  ℕ, ◌+◌, ◌-◌, ◌*◌, Bool, true, false, not, ◌||◌, ◌&&◌, Option, none, some, List, ltb, leb, ◌==◌,
  if◌then◌else◌, length, get_or, take, drop,
}
use num8_lup.Base.Words.{u32}
use num8_lup.Codec.{read_u16_le, read_u32_le, crc16_ccitt_false}
use num8_lup.Op.{CommonHeader, clear_common, protocol_version}
use num8_lup.Batch.Types.{
  msg_beacon, msg_update_request, msg_update_data, msg_ack, msg_nack, any_receiver_id,
  BeaconPayload, UpdateRequestPayload, UpdateHeader, AckPayload, NackPayload, clear_beacon,
  clear_update_request, clear_update, clear_ack, clear_nack, err_none, err_crc_fail,
  err_protocol_version_unsupported, err_invalid_message_type, err_invalid_receiver_id, err_internal,
}

unfoldable pub decode_common_header : List ℕ → Bool × CommonHeader
decode_common_header b = if ltb (length b) 8 then (false, clear_common) else (
  true,
  record {
    protocol_version = get_or b 0 0;
    msg_type = get_or b 1 0;
    sender_id = read_u16_le (drop 2 b);
    receiver_id = read_u16_le (drop 4 b);
    seq = read_u16_le (drop 6 b);
  },
)

unfoldable pub validate_frame_crc : List ℕ → Bool
validate_frame_crc b =
    if ltb (length b) 10
    then false
    else read_u16_le (drop (length b - 2) b) == crc16_ccitt_false (take (length b - 2) b)

unfoldable pub decode_header_and_crc : List ℕ → ℕ → CommonHeader → Bool × CommonHeader
unfolding decode_common_header validate_frame_crc
decode_header_and_crc b type h =
    if not (validate_frame_crc b)
    then (false, h)
    else let (decoded, h') = decode_common_header b in
      if not decoded
      then (false, h')
      else if not (h'.protocol_version == protocol_version) || not (h'.msg_type == type)
      then (false, h')
      else (true, h')

unfoldable pub decode_beacon : List ℕ → CommonHeader → Bool × CommonHeader × BeaconPayload
unfolding decode_header_and_crc
decode_beacon b h =
    if not (length b == 28)
    then (false, h, clear_beacon)
    else let (valid, h') = decode_header_and_crc b msg_beacon h in
      let p : BeaconPayload = record {
        current_update_id = read_u32_le (drop 8 b);
        dataset_version_from = read_u32_le (drop 12 b);
        dataset_version_to = read_u32_le (drop 16 b);
        remove_count = get_or b 20 0;
        add_count = get_or b 21 0;
        update_payload_size = read_u16_le (drop 22 b);
        update_payload_crc16 = read_u16_le (drop 24 b);
      } in
      if not valid
      then (false, h', clear_beacon)
      else if h'.sender_id == 0
          || not (h'.receiver_id == 0)
          || p.current_update_id == 0
          || leb p.dataset_version_to p.dataset_version_from
      then (false, h', p)
      else if not (p.update_payload_size == u32 (16 + 4 * p.remove_count + 4 * p.add_count))
      then (false, h', p)
      else (true, h', p)

unfoldable pub decode_update_request :
    List ℕ → CommonHeader → Bool × CommonHeader × UpdateRequestPayload
unfolding decode_header_and_crc
decode_update_request b h =
    if not (length b == 18)
    then (false, h, clear_update_request)
    else let (valid, h') = decode_header_and_crc b msg_update_request h in
      let p : UpdateRequestPayload = record {
        requested_update_id = read_u32_le (drop 8 b);
        receiver_dataset_ver = read_u32_le (drop 12 b);
      } in
      if not valid then (false, h', clear_update_request) else (
        not (h'.sender_id == 0) && (not (h'.receiver_id == 0) && not (p.requested_update_id == 0)),
        h',
        p,
      )

unfoldable pub read_update : List ℕ → UpdateHeader
read_update b = record {
  update_id = read_u32_le (drop 8 b);
  dataset_version_from = read_u32_le (drop 12 b);
  dataset_version_to = read_u32_le (drop 16 b);
  remove_count = get_or b 20 0;
  add_count = get_or b 21 0;
  reserved0 = read_u16_le (drop 22 b);
}

-- With the pointers to the two arrays in the frame, which stay NULL on failure.
unfoldable pub decode_update_data_header :
    List ℕ → CommonHeader → Bool × CommonHeader × UpdateHeader × Option (List ℕ × List ℕ)
unfolding decode_header_and_crc read_update
decode_update_data_header b h =
    let (valid, h') = decode_header_and_crc b msg_update_data h in
    let up = read_update b in
    if not valid
    then (false, h', clear_update, none)
    else if ltb (length b) 26
    then (false, h', clear_update, none)
    else if not (length b == u32 (26 + 4 * up.remove_count + 4 * up.add_count))
        || not (up.reserved0 == 0)
        || h'.sender_id == 0
        || h'.receiver_id == 0
        || up.update_id == 0
        || leb up.dataset_version_to up.dataset_version_from
    then (false, h', up, none)
    else (true, h', up, some (drop 24 b, drop (24 + 4 * up.remove_count) b))

unfoldable pub decode_ack : List ℕ → CommonHeader → Bool × CommonHeader × AckPayload
unfolding decode_header_and_crc
decode_ack b h =
    if not (length b == 18)
    then (false, h, clear_ack)
    else let (valid, h') = decode_header_and_crc b msg_ack h in
      let p : AckPayload = record {
        ack_update_id = read_u32_le (drop 8 b);
        receiver_dataset_ver = read_u32_le (drop 12 b);
      } in
      if not valid then (false, h', clear_ack) else (
        not (h'.sender_id == 0)
            && (not (h'.receiver_id == 0)
                && (not (p.ack_update_id == 0) && not (p.receiver_dataset_ver == 0))),
        h',
        p,
      )

unfoldable pub decode_nack : List ℕ → CommonHeader → Bool × CommonHeader × NackPayload
unfolding decode_header_and_crc
decode_nack b h =
    if not (length b == 18)
    then (false, h, clear_nack)
    else let (valid, h') = decode_header_and_crc b msg_nack h in
      let p : NackPayload = record {
        nack_update_id = read_u32_le (drop 8 b);
        error_code = read_u16_le (drop 12 b);
        detail = read_u16_le (drop 14 b);
      } in
      if not valid then (false, h', clear_nack) else (
        not (h'.sender_id == 0) && (not (h'.receiver_id == 0) && not (p.nack_update_id == 0)),
        h',
        p,
      )

-- The return value, `*out_hdr` and `*out_error_code`.
unfoldable pub classify_frame : List ℕ → ℕ → ℕ → Bool × CommonHeader × ℕ
unfolding validate_frame_crc decode_common_header
classify_frame b expected_receiver_id expected_msg_type =
    let (decoded, hdr) = decode_common_header b in
    let refused : ℕ → Bool × CommonHeader × ℕ = λ error. (false, clear_common, error) in
    if not (validate_frame_crc b)
    then refused err_crc_fail
    else if not decoded
    then refused err_internal
    else if not (hdr.protocol_version == protocol_version)
    then refused err_protocol_version_unsupported
    else if ltb hdr.msg_type msg_beacon || ltb msg_nack hdr.msg_type
    then refused err_invalid_message_type
    else if not (expected_msg_type == 0) && not (hdr.msg_type == expected_msg_type)
    then refused err_invalid_message_type
    else if not (expected_receiver_id == any_receiver_id)
        && (if hdr.msg_type == msg_beacon
            then not (hdr.receiver_id == 0)
            else not (hdr.receiver_id == expected_receiver_id))
    then refused err_invalid_receiver_id
    else (true, hdr, err_none)
