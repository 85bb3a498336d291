-- ===== src/Batch/Encode.antt =====
-- The encoders of src/num8lora.c: `none` is the return value 0 with `*out_len` at 0.
use num8_lup.Base.{
  ℕ, ◌*◌, not, ◌||◌, Option, none, some, List, [], ◌∷◌, ◌++◌, ltb, leb, ◌==◌, if◌then◌else◌, ◌>>=◌,
  take,
}
use num8_lup.Codec.{add_u32, mul_u32, write_u16_le, write_u32_le}
use num8_lup.Op.{header, seal}
use num8_lup.Batch.Types.{
  msg_beacon, msg_update_request, msg_update_data, msg_ack, msg_nack, BeaconPayload,
  UpdateRequestPayload, UpdateHeader, AckPayload, NackPayload, Numbers,
}
use num8_lup.Batch.Update.{array, missing}

unfoldable pub frame_len : ℕ → Option ℕ
unfolding add_u32
frame_len payload = add_u32 8 payload >>= λ len. add_u32 len 2

-- The code is that of the header of a single-operation frame.
unfoldable pub encode_common : ℕ → ℕ → ℕ → ℕ → List ℕ
unfolding header
encode_common msg_type sender_id receiver_id seq = header msg_type sender_id receiver_id seq

unfoldable pub finalize_crc : List ℕ → List ℕ
unfolding seal
finalize_crc body = seal body

-- The test on the buffer's size, and the write.
unfoldable pub emit : ℕ → ℕ → List ℕ → Option (List ℕ)
unfolding frame_len
emit payload_len out_cap body =
    frame_len payload_len >>= λ len. if ltb out_cap len then none else some (finalize_crc body)

-- `16 + 4 * remove_count + 4 * add_count`, by the checked additions.
unfoldable pub expected_size : ℕ → ℕ → Option ℕ
unfolding add_u32
expected_size remove_count add_count =
    add_u32 16 (4 * remove_count) >>= λ size. add_u32 size (4 * add_count)

-- The same by the checked multiplications too.
unfoldable pub payload_len : ℕ → ℕ → Option ℕ
unfolding add_u32 mul_u32
payload_len remove_count add_count = mul_u32 remove_count 4 >>= λ removes.
    add_u32 16 removes >>= λ size. mul_u32 add_count 4 >>= λ adds. add_u32 size adds

unfoldable pub write_numbers : List ℕ → List ℕ
write_numbers [] = []
write_numbers (x ∷ xs) = write_u32_le x ++ write_numbers xs

-- The update header as it stands in a frame, then the numbers.
unfoldable pub update_bytes : UpdateHeader → List ℕ → List ℕ → List ℕ
unfolding write_numbers
update_bytes hdr removes adds =
    write_u32_le hdr.update_id
    ++ (write_u32_le hdr.dataset_version_from
        ++ (write_u32_le hdr.dataset_version_to
            ++ (hdr.remove_count
                ∷ hdr.add_count
                ∷ (write_u16_le 0 ++ (write_numbers removes ++ write_numbers adds)))))

module _ (out_cap sender_id : ℕ) where
  unfoldable pub encode_beacon : ℕ → BeaconPayload → Option (List ℕ)
  unfolding emit expected_size
  encode_beacon seq p =
      if sender_id == 0
      then none
      else if p.current_update_id == 0 || leb p.dataset_version_to p.dataset_version_from
      then none
      else expected_size p.remove_count p.add_count >>= λ size.
          if not (p.update_payload_size == size)
          then none
          else emit 18 out_cap (
              encode_common msg_beacon sender_id 0 seq
              ++ (write_u32_le p.current_update_id
                  ++ (write_u32_le p.dataset_version_from
                      ++ (write_u32_le p.dataset_version_to
                          ++ (p.remove_count
                              ∷ p.add_count
                              ∷ (write_u16_le p.update_payload_size
                                  ++ write_u16_le p.update_payload_crc16))))))

  unfoldable pub encode_update_request : ℕ → ℕ → UpdateRequestPayload → Option (List ℕ)
  unfolding emit
  encode_update_request receiver_id seq p =
      if sender_id == 0 || receiver_id == 0
      then none
      else if p.requested_update_id == 0
      then none
      else emit 8 out_cap (
          encode_common msg_update_request sender_id receiver_id seq
          ++ (write_u32_le p.requested_update_id ++ write_u32_le p.receiver_dataset_ver))

  unfoldable pub encode_update_data : ℕ → ℕ → UpdateHeader → Numbers → Numbers → Option (List ℕ)
  unfolding payload_len frame_len update_bytes
  encode_update_data receiver_id seq hdr remove_numbers add_numbers =
      if sender_id == 0 || receiver_id == 0
      then none
      else if hdr.update_id == 0
          || leb hdr.dataset_version_to hdr.dataset_version_from
          || not (hdr.reserved0 == 0)
      then none
      else payload_len hdr.remove_count hdr.add_count >>= λ size. frame_len size >>= λ len.
          if ltb out_cap len
          then none
          else if missing hdr.remove_count remove_numbers || missing hdr.add_count add_numbers
          then none
          else some (
              finalize_crc (
                encode_common msg_update_data sender_id receiver_id seq
                ++ update_bytes hdr (take hdr.remove_count (array remove_numbers))
                    (take hdr.add_count (array add_numbers))))

  unfoldable pub encode_ack : ℕ → ℕ → AckPayload → Option (List ℕ)
  unfolding emit
  encode_ack receiver_id seq p =
      if sender_id == 0 || receiver_id == 0
      then none
      else if p.ack_update_id == 0 || p.receiver_dataset_ver == 0
      then none
      else emit 8 out_cap (
          encode_common msg_ack sender_id receiver_id seq
          ++ (write_u32_le p.ack_update_id ++ write_u32_le p.receiver_dataset_ver))

  unfoldable pub encode_nack : ℕ → ℕ → NackPayload → Option (List ℕ)
  unfolding emit
  encode_nack receiver_id seq p =
      if sender_id == 0 || receiver_id == 0
      then none
      else if p.nack_update_id == 0
      then none
      else emit 8 out_cap (
          encode_common msg_nack sender_id receiver_id seq
          ++ (write_u32_le p.nack_update_id
              ++ (write_u16_le p.error_code ++ write_u16_le p.detail)))
