-- ===== src/Tests/Frames.antt =====
-- The codec and the frames.
use num8_lup.Base.{
  ℕ, List, ◌≤◌, ◌≡◌, refl, arith, inr, ◌<◌, ◌⊎◌, none, true, false, some, [], ◌∷◌, length,
}
use num8_lup.Codec.{crc16_ccitt_false, read_u32_le, write_u32_le}
use num8_lup.Op.{
  clear_common, msg_request, msg_data, encode_beacon, decode_beacon, decode_request, decode_data,
  decode_ack, decode_nack, BeaconPayload, RequestPayload, AckPayload, NackPayload,
}
use num8_lup.Op.Shape.{header_of}
use num8_lup.Op.RoundTrip.{decode_data-encode_data}
use num8_lup.Op.Reject.{corrupted, decoders_reject_corrupted}
use num8_lup.Receiver.{handle_beacon, count_frame}
use num8_lup.Receiver.Beacon.{handle_beacon_answer}
use num8_lup.Tests.States.{
  data_frame, first_data, first_data_made, beacon_frame, fresh, fresh-IsReceiver,
}

-- The value of the operation in `data_frame` arrives as 43.
decoders_reject_corrupted_example :
    let f =
      corrupted
        (1 ∷ 35 ∷ 7 ∷ 0 ∷ 9 ∷ 0 ∷ 1 ∷ 0 ∷ 100 ∷ 0 ∷ 0 ∷ 0 ∷ 1 ∷ 0 ∷ 0 ∷ 0 ∷ 1 ∷ 0 ∷ 0 ∷ 0 ∷ [])
        42
        43
        (0 ∷ 0 ∷ 0 ∷ []) in
    ((decode_beacon f clear_common).0 ≡ false)
    × ((decode_request f clear_common).0 ≡ false)
    × ((decode_data f clear_common).0 ≡ false)
    × ((decode_ack f clear_common).0 ≡ false)
    × ((decode_nack f clear_common).0 ≡ false)
decoders_reject_corrupted_example =
    decoders_reject_corrupted
      (1 ∷ 35 ∷ 7 ∷ 0 ∷ 9 ∷ 0 ∷ 1 ∷ 0 ∷ 100 ∷ 0 ∷ 0 ∷ 0 ∷ 1 ∷ 0 ∷ 0 ∷ 0 ∷ 1 ∷ 0 ∷ 0 ∷ 0 ∷ []) 42 43
      (0 ∷ 0 ∷ 0 ∷ []) (omega arith) (omega arith) (omega arith) clear_common

decode_data-encode_data_example :
    (length data_frame ≡ 26)
    × (26 ≤ 64)
    × (decode_data data_frame clear_common ≡ (true, header_of msg_data 7 9 1, first_data))
decode_data-encode_data_example =
    decode_data-encode_data 64 7 9 1 clear_common (omega arith, omega arith, omega arith) first_data
      (omega arith, omega arith) first_data_made

abbrev seven_request : List ℕ
seven_request = 1 ∷ 34 ∷ 7 ∷ 0 ∷ 9 ∷ 0 ∷ 1 ∷ 0 ∷ 100 ∷ 0 ∷ 0 ∷ 0 ∷ 1 ∷ 0 ∷ 0 ∷ 0 ∷ 28 ∷ 225 ∷ []

abbrev seven_ack : List ℕ
seven_ack = 1 ∷ 36 ∷ 7 ∷ 0 ∷ 9 ∷ 0 ∷ 1 ∷ 0 ∷ 100 ∷ 0 ∷ 0 ∷ 0 ∷ 1 ∷ 0 ∷ 0 ∷ 0 ∷ 119 ∷ 55 ∷ []

abbrev seven_nack : List ℕ
seven_nack =
    1 ∷ 37 ∷ 7 ∷ 0 ∷ 9 ∷ 0 ∷ 1 ∷ 0 ∷ 100 ∷ 0 ∷ 0 ∷ 0 ∷ 6 ∷ 0 ∷ 0 ∷ 0 ∷ 1 ∷ 0 ∷ 0 ∷ 0 ∷ 239 ∷ 79 ∷ []

abbrev a_beacon : BeaconPayload
a_beacon = record { stream_id = 100; latest_op_id = 1 }

a_beacon_made : encode_beacon 64 7 1 a_beacon ≡ some beacon_frame
unfolding encode_beacon num8_lup.Codec.write_u16_le write_u32_le crc16_ccitt_false
a_beacon_made = refl

abbrev a_request : RequestPayload
a_request = record { stream_id = 100; next_needed_op_id = 1 }

abbrev an_ack : AckPayload
an_ack = record { stream_id = 100; ack_op_id = 1 }

abbrev a_nack : NackPayload
a_nack = record { stream_id = 100; error_code = 6; detail = 0; expected_next_op_id = 1 }

handle_beacon_answer_example :
    ((1 ≤ 0) × (handle_beacon fresh beacon_frame 64 ≡ (none, fresh)))
    ⊎ ((0 < 1)
        × ((a : List ℕ) × (handle_beacon fresh beacon_frame 64 ≡ (some a, count_frame fresh))
            × (decode_request a clear_common ≡ (
              true,
              header_of msg_request 9 7 1,
              record { stream_id = 100; next_needed_op_id = 1 },
            ))))
handle_beacon_answer_example =
    handle_beacon_answer fresh-IsReceiver 64 7 1 a_beacon (omega arith, omega arith, omega arith)
      (omega arith, omega arith) a_beacon_made (inr refl) refl 64 (omega arith)
