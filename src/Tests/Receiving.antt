-- ===== src/Tests/Receiving.antt =====
-- The receiver, and a whole cycle.
use num8_lup.Base.{ℕ, ◌+◌, ◌≡◌, inr, refl, arith, true, none, some, List, [], ◌∷◌, ◌++◌}
use num8_lup.Op.{
  DataPayload, encode_data, clear_common, decode_data, decode_ack, decode_nack, msg_ack, msg_nack,
  err_sequence_gap, err_apply_failed,
}
use num8_lup.Op.Shape.{header_of}
use num8_lup.Sender.{slot_at, sender_reclaim_history, next_op_id}
use num8_lup.Receiver.{Receiver, handle_data, count_frame, try_apply}
use num8_lup.Receiver.Order.{Effect, handle_data-Effect}
use num8_lup.Receiver.History.{note, deliver, following, deliver-following}
use num8_lup.Receiver.Answers.{handle_data_next, handle_data_gap, handle_data_failed}
use num8_lup.Session.Offers.{IsFrameOf, poll_tx-IsFrameOf}
use num8_lup.Session.Delivery.{Cycle, poll_tx-Cycle}
use num8_lup.Tests.States.{
  ready, ready-Inv, ready-IsSender, ready-Unique, ready_sends, waiting, data_frame, fresh,
  fresh-IsReceiver, fresh-IsPeer, accept_all, gap_frame, first_data, first_data_made,
}

poll_tx-Cycle_example :
    Cycle (some (note accept_all)) [] fresh ((1, 42) ∷ []) waiting 0 data_frame 64 20
unfolding decode_data note num8_lup.Receiver.try_apply num8_lup.Op.validate_frame_crc
    num8_lup.Codec.read_u16_le num8_lup.Codec.crc16_ccitt_false num8_lup.Codec.read_u32_le
poll_tx-Cycle_example =
    poll_tx-Cycle (some (note accept_all)) [] fresh 0 0 64 64 20 ready-Inv ready-IsSender
      ready-Unique ready_sends refl refl fresh-IsPeer (omega arith) refl

-- The frame arrives twice and is applied once.
deliver-following_example :
    let (r', user') = deliver accept_all fresh [] ((data_frame, 64) ∷ (data_frame, 64) ∷ []) in
    (n : ℕ) × (r'.last_applied_op_id ≡ 0 + n) × (user' ≡ [] ++ following (λ id. (1, 42)) 0 n)
unfolding decode_data num8_lup.Op.validate_frame_crc num8_lup.Codec.read_u16_le
    num8_lup.Codec.crc16_ccitt_false num8_lup.Codec.read_u32_le
deliver-following_example =
    deliver-following accept_all (λ id. (1, 42)) fresh [] ((data_frame, 64) ∷ (data_frame, 64) ∷ [])
      ((λ a b c. refl), ((λ a b c. refl), tt))

poll_tx-IsFrameOf_example :
    (i : ℕ) × ((slot_at ready i).active ≡ true)
    × (9 ≡ (slot_at ready i).receiver_id)
    × IsFrameOf (sender_reclaim_history ready) 9 (next_op_id (slot_at ready i)) data_frame
    × ((slot_at waiting i).waiting_ack ≡ true)
    × ((slot_at waiting i).inflight_op_id ≡ next_op_id (slot_at ready i))
poll_tx-IsFrameOf_example = poll_tx-IsFrameOf 0 64 ready-Inv ready-IsSender ready_sends

handle_data-Effect_example :
    let (decoded, hdr, d) = decode_data data_frame clear_common in
    let (answer, r', user') = handle_data (some (note accept_all)) [] fresh data_frame 64 in
    Effect (some (note accept_all)) [] fresh decoded hdr d r'.last_applied_op_id user'
handle_data-Effect_example = handle_data-Effect (some (note accept_all)) [] fresh data_frame 64

handle_data_next_example :
    (a : List ℕ) × (handle_data (some (note accept_all)) [] fresh data_frame 64
      ≡ (some a, record (count_frame fresh) { last_applied_op_id = 1 }, (1, 42) ∷ []))
    × (decode_ack a clear_common
        ≡ (true, header_of msg_ack 9 7 1, record { stream_id = 100; ack_op_id = 1 }))
unfolding note num8_lup.Receiver.try_apply
handle_data_next_example =
    handle_data_next (some (note accept_all)) [] fresh-IsReceiver 64 7 1 first_data (omega arith)
      (omega arith) (omega arith) first_data_made (inr refl) refl 64 (omega arith) refl refl

abbrev third_data : DataPayload
third_data = record first_data { op_id = 3 }

third_data_made : encode_data 64 7 9 1 third_data ≡ some gap_frame
unfolding encode_data num8_lup.Codec.write_u16_le num8_lup.Codec.write_u32_le
    num8_lup.Codec.crc16_ccitt_false
third_data_made = refl

handle_data_gap_example :
    (a : List ℕ) × (handle_data (some (note accept_all)) [] fresh gap_frame 64
      ≡ (some a, count_frame fresh, []))
    × (decode_nack a clear_common ≡ (
      true,
      header_of msg_nack 9 7 1,
      record {
        stream_id = 100;
        error_code = err_sequence_gap;
        detail = 0;
        expected_next_op_id = 1;
      },
    ))
handle_data_gap_example =
    handle_data_gap (some (note accept_all)) [] fresh-IsReceiver 64 7 1 third_data (omega arith)
      (omega arith) (omega arith) third_data_made (inr refl) refl 64 (omega arith) (omega arith)

-- Without a callback every application fails.
handle_data_failed_example :
    (a : List ℕ) × (handle_data {U = ℕ} none 5 fresh data_frame 64 ≡ (some a, count_frame fresh, 5))
    × (decode_nack a clear_common ≡ (
      true,
      header_of msg_nack 9 7 1,
      record {
        stream_id = 100;
        error_code = err_apply_failed;
        detail = 0;
        expected_next_op_id = 1;
      },
    ))
unfolding try_apply
handle_data_failed_example =
    handle_data_failed {U = ℕ} none 5 fresh-IsReceiver 64 7 1 first_data (omega arith) (omega arith)
      (omega arith) first_data_made (inr refl) refl 64 (omega arith) refl refl
