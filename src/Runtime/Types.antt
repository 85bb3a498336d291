-- ===== src/Runtime/Types.antt =====
-- The contexts of include/num8lora.h.
use num8_lup.Base.{ℕ, Bool, true, false}
use num8_lup.Batch.{Numbers, UpdateHeader}

pub data SenderState : Type 0 where
  idle : SenderState
  wait_request : SenderState
  wait_ack : SenderState

pub data ReceiverState : Type 0 where
  scan : ReceiverState
  wait_update : ReceiverState

pub data AckResult : Type 0 where
  no_result : AckResult
  applied : AckResult
  nacked : AckResult

pub record SenderCtx : Type 0 where
  pub state : SenderState
  pub sender_id : ℕ
  pub target_receiver_id : ℕ
  pub seq : ℕ
  pub max_retries : ℕ
  pub retries : ℕ
  pub update_hdr : UpdateHeader
  pub remove_numbers : Numbers
  pub add_numbers : Numbers
  pub update_payload_crc16 : ℕ
  pub last_nack_error : ℕ

pub record ReceiverCtx : Type 0 where
  pub state : ReceiverState
  pub receiver_id : ℕ
  pub expected_sender_id : ℕ
  pub seq : ℕ
  pub max_retries : ℕ
  pub retries : ℕ
  pub local_dataset_version : ℕ
  pub last_applied_update_id : ℕ
  pub last_applied_sender_id : ℕ
  pub last_applied_receiver_id : ℕ
  pub last_applied_dataset_version_from : ℕ
  pub last_applied_dataset_version_to : ℕ
  pub last_applied_remove_count : ℕ
  pub last_applied_add_count : ℕ
  pub last_applied_payload_size : ℕ
  pub last_applied_payload_crc16 : ℕ
  pub pending_update_id : ℕ
  pub pending_dataset_version_from : ℕ
  pub pending_dataset_version_to : ℕ
  pub pending_remove_count : ℕ
  pub pending_add_count : ℕ
  pub pending_payload_size : ℕ
  pub pending_payload_crc16 : ℕ

-- The test `state == NUM8LORA_SENDER_...`.
abbrev pub is_wait_request : SenderState → Bool
is_wait_request wait_request = true
is_wait_request idle = false
is_wait_request wait_ack = false

abbrev pub is_wait_ack : SenderState → Bool
is_wait_ack wait_ack = true
is_wait_ack idle = false
is_wait_ack wait_request = false

abbrev pub is_wait_update : ReceiverState → Bool
is_wait_update wait_update = true
is_wait_update scan = false

-- The outputs of `num8lora_receiver_validate_update_data`.
pub record ValidatedUpdate : Type 0 where
  pub status : Bool
  pub header : UpdateHeader
  pub remove_numbers : Numbers
  pub add_numbers : Numbers
  pub required_remove_count : ℕ
  pub required_add_count : ℕ
  pub error : ℕ
