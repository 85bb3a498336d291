-- ===== src/Tests/Exchanging.antt =====
-- The sender and the receiver of the batch protocol, and a whole exchange.
use num8_lup.Base.{◌<◌, ◌≡◌, ◌↔◌, inr, refl, arith, true, some, [], ◌∷◌}
use num8_lup.Batch.{classify_frame, msg_update_data}
use num8_lup.Runtime.{
  SenderCtx, ReceiverCtx, idle, scan, wait_request, wait_ack, sender_init,
  receiver_validate_update_data,
}
use num8_lup.Runtime.Steps.{set_update, build_beacon, ack_timeout, step, run, IsInv, ◌⟶◌, step-⟶}
use num8_lup.Runtime.Invariant.{run-Inv}
use num8_lup.Runtime.Retries.{
  sender_timeouts, receiver_timeouts, sender_timeouts_lem, receiver_timeouts_lem,
}
use num8_lup.Runtime.Accept.{IsAccepted, receiver_validate_update_data-IsAccepted}
use num8_lup.Bridge.{receiver_apply_update_data_to_num8, apply_update_to_num8}
use num8_lup.Bridge.Sets.{member, apply_update_to_num8-apply_update_to_num8}
use num8_lup.Bridge.Receive.{
  Keeps, Outcome, receiver_apply_update_data_to_num8-Outcome,
  receiver_apply_update_data_to_num8_again,
}
use num8_lup.Exchange.Session.{Completes, exchange_lem}
use num8_lup.Tests.Updates.{
  update, removes, adds, offering, offering-IsSending, listening, listening-IsListening, awaiting,
  update_frame, list_engine, holds, list_engine-IsLawful,
}

abbrev sending : SenderCtx
sending = record offering { state = wait_ack; seq = 3 }

run-Inv_example : IsInv (
    run
      (sender_init 7 2)
      (set_update 9 update removes adds ∷ build_beacon 64 ∷ ack_timeout 64 ∷ []))
run-Inv_example =
    run-Inv 7 2 (set_update 9 update removes adds ∷ build_beacon 64 ∷ ack_timeout 64 ∷ [])
      (omega arith)

step-⟶_example : wait_ack ⟶ (step sending (ack_timeout 64)).state
step-⟶_example = step-⟶ sending (ack_timeout 64)

sender_timeouts_lem_example : ((sender_timeouts sending (64 ∷ 64 ∷ 64 ∷ [])).state ≡ idle) ↔ (2 < 3)
sender_timeouts_lem_example =
    sender_timeouts_lem (64 ∷ 64 ∷ 64 ∷ []) sending refl (omega arith) (omega arith)

receiver_timeouts_lem_example :
    ((receiver_timeouts awaiting (64 ∷ 64 ∷ 64 ∷ [])).state ≡ scan) ↔ (2 < 3)
receiver_timeouts_lem_example =
    receiver_timeouts_lem (64 ∷ 64 ∷ 64 ∷ []) awaiting refl (omega arith) (omega arith)

receiver_validate_update_data-IsAccepted_example :
    let v =
      receiver_validate_update_data awaiting update_frame (some (0 ∷ [])) (some (0 ∷ 0 ∷ [])) in
    (v.error ≡ 0)
    × ((classify_frame update_frame 9 msg_update_data).0 ≡ true)
    × IsAccepted awaiting v.header v.remove_numbers v.add_numbers
unfolding receiver_validate_update_data classify_frame num8_lup.Codec.read_u16_le
    num8_lup.Codec.crc16_ccitt_false num8_lup.Batch.decode_update_data_header
    num8_lup.Codec.read_u32_le num8_lup.Runtime.validate_decoded
    num8_lup.Batch.decode_update_numbers num8_lup.Runtime.check_numbers
    num8_lup.Batch.validate_update_numbers num8_lup.Batch.compute_update_payload_crc16
    num8_lup.Runtime.check_update num8_lup.Runtime.update_payload_size
receiver_validate_update_data-IsAccepted_example =
    receiver_validate_update_data-IsAccepted awaiting update_frame (some (0 ∷ []))
      (some (0 ∷ 0 ∷ [])) refl

receiver_apply_update_data_to_num8-Outcome_example :
    Outcome list_engine holds list_engine-IsLawful awaiting
      (10 ∷ [])
      update_frame
      64
      (receiver_apply_update_data_to_num8 list_engine awaiting (10 ∷ []) update_frame 64)
receiver_apply_update_data_to_num8-Outcome_example =
    receiver_apply_update_data_to_num8-Outcome list_engine holds list_engine-IsLawful awaiting
      (10 ∷ []) update_frame 64

-- The receiver after that update.
abbrev updated : ReceiverCtx
updated = record awaiting {
  state = scan;
  seq = 3;
  local_dataset_version = 2;
  last_applied_update_id = 5;
  last_applied_dataset_version_from = 1;
  last_applied_dataset_version_to = 2;
  last_applied_remove_count = 1;
  last_applied_add_count = 2;
  last_applied_payload_size = 28;
  last_applied_payload_crc16 = 13733;
}

receiver_apply_update_data_to_num8_again_example :
    let r = receiver_apply_update_data_to_num8 list_engine updated (30 ∷ 20 ∷ []) update_frame 64 in
    (r.3 ≡ 30 ∷ 20 ∷ []) × Keeps updated r.2
unfolding receiver_validate_update_data classify_frame num8_lup.Codec.read_u16_le
    num8_lup.Codec.crc16_ccitt_false num8_lup.Batch.decode_update_data_header
    num8_lup.Codec.read_u32_le num8_lup.Runtime.validate_decoded
    num8_lup.Batch.decode_update_numbers num8_lup.Runtime.check_numbers
    num8_lup.Batch.validate_update_numbers num8_lup.Batch.compute_update_payload_crc16
    num8_lup.Runtime.check_update num8_lup.Runtime.is_last_applied
receiver_apply_update_data_to_num8_again_example =
    receiver_apply_update_data_to_num8_again list_engine updated (30 ∷ 20 ∷ []) update_frame 64
      (inr refl)

apply_update_to_num8-apply_update_to_num8_example :
    holds
      (apply_update_to_num8 list_engine
        (apply_update_to_num8 list_engine (10 ∷ []) 1 4 update removes adds).engine
        1
        4
        update
        removes
        adds).engine
      20
    ≡ member true (10 ∷ []) (20 ∷ 30 ∷ []) 20
unfolding apply_update_to_num8 num8_lup.Batch.validate_update_numbers num8_lup.Bridge.apply_numbers
    num8_lup.Bridge.remove_all num8_lup.Bridge.add_all
apply_update_to_num8-apply_update_to_num8_example =
    apply_update_to_num8-apply_update_to_num8 list_engine holds list_engine-IsLawful (10 ∷ []) 1 4 1
      4 update removes adds refl (omega arith) 20

exchange_lem_example :
    Completes list_engine holds list_engine-IsLawful offering listening
      (10 ∷ [])
      offering-IsSending
      listening-IsListening
      (omega arith)
      28
      18
      38
      18
      (omega arith, omega arith, omega arith, omega arith)
unfolding num8_lup.Bridge.apply_numbers num8_lup.Bridge.remove_all num8_lup.Bridge.add_all
exchange_lem_example =
    exchange_lem list_engine holds list_engine-IsLawful offering listening (10 ∷ [])
      offering-IsSending listening-IsListening (omega arith) 28 18 38 18
      (omega arith, omega arith, omega arith, omega arith) refl
