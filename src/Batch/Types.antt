-- ===== src/Batch/Types.antt =====
-- The constants and payload structs of include/num8lora.h. The common header has the fields of the
-- one in include/num8lora_op.h, whose record stands for both.
use num8_lup.Base.{ℕ, Option, List}

abbrev pub msg_beacon : ℕ
msg_beacon = 0x01

abbrev pub msg_update_request : ℕ
msg_update_request = 0x02

abbrev pub msg_update_data : ℕ
msg_update_data = 0x03

abbrev pub msg_ack : ℕ
msg_ack = 0x04

abbrev pub msg_nack : ℕ
msg_nack = 0x05

abbrev pub any_receiver_id : ℕ
any_receiver_id = 0xFFFF

abbrev pub err_none : ℕ
err_none = 0

abbrev pub err_crc_fail : ℕ
err_crc_fail = 1

abbrev pub err_protocol_version_unsupported : ℕ
err_protocol_version_unsupported = 2

abbrev pub err_invalid_message_type : ℕ
err_invalid_message_type = 3

abbrev pub err_invalid_receiver_id : ℕ
err_invalid_receiver_id = 4

abbrev pub err_update_id_unknown : ℕ
err_update_id_unknown = 5

abbrev pub err_dataset_version_mismatch : ℕ
err_dataset_version_mismatch = 6

abbrev pub err_invalid_number : ℕ
err_invalid_number = 7

abbrev pub err_duplicate_in_batch : ℕ
err_duplicate_in_batch = 8

abbrev pub err_number_in_both : ℕ
err_number_in_both = 9

abbrev pub err_apply_failed : ℕ
err_apply_failed = 10

abbrev pub err_busy : ℕ
err_busy = 11

abbrev pub err_internal : ℕ
err_internal = 12

abbrev pub err_output_too_small : ℕ
err_output_too_small = 13

abbrev pub max_value : ℕ
max_value = 99999999

pub record BeaconPayload : Type 0 where
  pub current_update_id : ℕ
  pub dataset_version_from : ℕ
  pub dataset_version_to : ℕ
  pub remove_count : ℕ
  pub add_count : ℕ
  pub update_payload_size : ℕ
  pub update_payload_crc16 : ℕ

pub record UpdateRequestPayload : Type 0 where
  pub requested_update_id : ℕ
  pub receiver_dataset_ver : ℕ

pub record UpdateHeader : Type 0 where
  pub update_id : ℕ
  pub dataset_version_from : ℕ
  pub dataset_version_to : ℕ
  pub remove_count : ℕ
  pub add_count : ℕ
  pub reserved0 : ℕ

pub record AckPayload : Type 0 where
  pub ack_update_id : ℕ
  pub receiver_dataset_ver : ℕ

pub record NackPayload : Type 0 where
  pub nack_update_id : ℕ
  pub error_code : ℕ
  pub detail : ℕ

-- The values that the decoders clear their outputs to.
abbrev pub clear_beacon : BeaconPayload
clear_beacon = record {
  current_update_id = 0;
  dataset_version_from = 0;
  dataset_version_to = 0;
  remove_count = 0;
  add_count = 0;
  update_payload_size = 0;
  update_payload_crc16 = 0;
}

abbrev pub clear_update_request : UpdateRequestPayload
clear_update_request = record { requested_update_id = 0; receiver_dataset_ver = 0 }

abbrev pub clear_update : UpdateHeader
clear_update = record {
  update_id = 0;
  dataset_version_from = 0;
  dataset_version_to = 0;
  remove_count = 0;
  add_count = 0;
  reserved0 = 0;
}

abbrev pub clear_ack : AckPayload
clear_ack = record { ack_update_id = 0; receiver_dataset_ver = 0 }

abbrev pub clear_nack : NackPayload
clear_nack = record { nack_update_id = 0; error_code = 0; detail = 0 }

-- A pointer to an array of numbers, which may be NULL.
abbrev pub Numbers : Type 0
Numbers = Option (List ℕ)
