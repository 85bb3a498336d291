-- ===== src/Op/Encode.antt =====
-- The encoders of src/num8lora_op.c: `none` is the return value 0 with `*out_len` at 0.
use num8_lup.Base.{ℕ, not, ◌||◌, ◌&&◌, Option, none, some, List, ◌∷◌, ◌++◌}
use num8_lup.Base.{ltb, ◌==◌, if◌then◌else◌, ◌>>=◌}
use num8_lup.Codec.{add_u32, write_u16_le, write_u32_le, crc16_ccitt_false}
use num8_lup.Op.Types.{
  protocol_version, msg_beacon, msg_request, msg_data, msg_ack, msg_nack, op_add, op_remove,
  max_value, BeaconPayload, RequestPayload, DataPayload, AckPayload, NackPayload,
}

unfoldable pub frame_len : ℕ → Option ℕ
unfolding add_u32
frame_len payload_len = add_u32 8 payload_len >>= λ len. add_u32 len 2

-- The bytes 0 to 7.
unfoldable pub header : ℕ → ℕ → ℕ → ℕ → List ℕ
header msg_type sender_id receiver_id seq =
    protocol_version
    ∷ msg_type
    ∷ (write_u16_le sender_id ++ (write_u16_le receiver_id ++ write_u16_le seq))

-- The CRC goes behind the bytes that it covers.
unfoldable pub seal : List ℕ → List ℕ
seal body = body ++ write_u16_le (crc16_ccitt_false body)

-- The test on the buffer's size, and the write.
unfoldable pub emit : ℕ → ℕ → List ℕ → Option (List ℕ)
unfolding frame_len
emit payload_len out_cap body =
    frame_len payload_len >>= λ len. if ltb out_cap len then none else some (seal body)

module _ (out_cap sender_id : ℕ) where
  unfoldable pub encode_beacon : ℕ → BeaconPayload → Option (List ℕ)
  unfolding emit header seal
  encode_beacon seq p =
      if p.stream_id == 0 || p.latest_op_id == 0 || sender_id == 0
      then none
      else emit 8 out_cap (
          header msg_beacon sender_id 0 seq
          ++ (write_u32_le p.stream_id ++ write_u32_le p.latest_op_id))

  unfoldable pub encode_request : ℕ → ℕ → RequestPayload → Option (List ℕ)
  unfolding emit header seal
  encode_request receiver_id seq p =
      if sender_id == 0 || receiver_id == 0 || p.stream_id == 0 || p.next_needed_op_id == 0
      then none
      else emit 8 out_cap (
          header msg_request sender_id receiver_id seq
          ++ (write_u32_le p.stream_id ++ write_u32_le p.next_needed_op_id))

  unfoldable pub encode_data : ℕ → ℕ → DataPayload → Option (List ℕ)
  unfolding emit header seal
  encode_data receiver_id seq p =
      if sender_id == 0
        || receiver_id == 0
        || p.stream_id == 0
        || p.op_id == 0
        || not (p.reserved0 == 0)
        || not (p.reserved1 == 0)
      then none
      else if not (p.op_type == op_add) && not (p.op_type == op_remove)
      then none
      else if ltb max_value p.value
      then none
      else emit 16 out_cap (
          header msg_data sender_id receiver_id seq
          ++ (write_u32_le p.stream_id
              ++ (write_u32_le p.op_id
                  ++ (p.op_type ∷ 0 ∷ (write_u16_le 0 ++ write_u32_le p.value)))))

  unfoldable pub encode_ack : ℕ → ℕ → AckPayload → Option (List ℕ)
  unfolding emit header seal
  encode_ack receiver_id seq p =
      if sender_id == 0 || receiver_id == 0 || p.stream_id == 0 || p.ack_op_id == 0
      then none
      else emit 8 out_cap (
          header msg_ack sender_id receiver_id seq
          ++ (write_u32_le p.stream_id ++ write_u32_le p.ack_op_id))

  unfoldable pub encode_nack : ℕ → ℕ → NackPayload → Option (List ℕ)
  unfolding emit header seal
  encode_nack receiver_id seq p =
      if sender_id == 0 || receiver_id == 0 || p.stream_id == 0 || p.expected_next_op_id == 0
      then none
      else emit 12 out_cap (
          header msg_nack sender_id receiver_id seq
          ++ (write_u32_le p.stream_id
              ++ (write_u16_le p.error_code
                  ++ (write_u16_le p.detail ++ write_u32_le p.expected_next_op_id))))
