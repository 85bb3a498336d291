-- ===== src/Op/Types.antt =====
-- The constants and structs of include/num8lora_op.h.
use num8_lup.Base.{ℕ, ◌^◌, ◌<◌}

abbrev pub protocol_version : ℕ
protocol_version = 1

abbrev pub msg_beacon : ℕ
msg_beacon = 0x21

abbrev pub msg_request : ℕ
msg_request = 0x22

abbrev pub msg_data : ℕ
msg_data = 0x23

abbrev pub msg_ack : ℕ
msg_ack = 0x24

abbrev pub msg_nack : ℕ
msg_nack = 0x25

abbrev pub op_add : ℕ
op_add = 1

abbrev pub op_remove : ℕ
op_remove = 2

abbrev pub err_receiver : ℕ
err_receiver = 4

abbrev pub err_stream : ℕ
err_stream = 5

abbrev pub err_sequence_gap : ℕ
err_sequence_gap = 6

abbrev pub err_invalid_value : ℕ
err_invalid_value = 7

abbrev pub err_apply_failed : ℕ
err_apply_failed = 8

abbrev pub err_history_unavailable : ℕ
err_history_unavailable = 9

abbrev pub max_value : ℕ
max_value = 99999999

pub record CommonHeader : Type 0 where
  pub protocol_version : ℕ
  pub msg_type : ℕ
  pub sender_id : ℕ
  pub receiver_id : ℕ
  pub seq : ℕ

pub record BeaconPayload : Type 0 where
  pub stream_id : ℕ
  pub latest_op_id : ℕ

pub record RequestPayload : Type 0 where
  pub stream_id : ℕ
  pub next_needed_op_id : ℕ

pub record DataPayload : Type 0 where
  pub stream_id : ℕ
  pub op_id : ℕ
  pub op_type : ℕ
  pub reserved0 : ℕ
  pub reserved1 : ℕ
  pub value : ℕ

pub record AckPayload : Type 0 where
  pub stream_id : ℕ
  pub ack_op_id : ℕ

pub record NackPayload : Type 0 where
  pub stream_id : ℕ
  pub error_code : ℕ
  pub detail : ℕ
  pub expected_next_op_id : ℕ

-- The values that the `clear` functions leave.
abbrev pub clear_common : CommonHeader
clear_common = record {
  protocol_version = 0;
  msg_type = 0;
  sender_id = 0;
  receiver_id = 0;
  seq = 0;
}

abbrev pub clear_beacon : BeaconPayload
clear_beacon = record { stream_id = 0; latest_op_id = 0 }

abbrev pub clear_request : RequestPayload
clear_request = record { stream_id = 0; next_needed_op_id = 0 }

abbrev pub clear_data : DataPayload
clear_data = record {
  stream_id = 0;
  op_id = 0;
  op_type = 0;
  reserved0 = 0;
  reserved1 = 0;
  value = 0;
}

abbrev pub clear_ack : AckPayload
clear_ack = record { stream_id = 0; ack_op_id = 0 }

abbrev pub clear_nack : NackPayload
clear_nack = record { stream_id = 0; error_code = 0; detail = 0; expected_next_op_id = 0 }

-- The fields hold values of their C types.
abbrev pub AreIds : ℕ → ℕ → ℕ → Type 0
AreIds sender_id receiver_id seq = (sender_id < 2 ^ 16) × (receiver_id < 2 ^ 16) × (seq < 2 ^ 16)

abbrev pub IsBeacon : BeaconPayload → Type 0
IsBeacon p = (p.stream_id < 2 ^ 32) × (p.latest_op_id < 2 ^ 32)

abbrev pub IsRequest : RequestPayload → Type 0
IsRequest p = (p.stream_id < 2 ^ 32) × (p.next_needed_op_id < 2 ^ 32)

abbrev pub IsData : DataPayload → Type 0
IsData p = (p.stream_id < 2 ^ 32) × (p.op_id < 2 ^ 32)

abbrev pub IsAck : AckPayload → Type 0
IsAck p = (p.stream_id < 2 ^ 32) × (p.ack_op_id < 2 ^ 32)

abbrev pub IsNack : NackPayload → Type 0
IsNack p =
    (p.stream_id < 2 ^ 32)
    × (p.error_code < 2 ^ 16)
    × (p.detail < 2 ^ 16)
    × (p.expected_next_op_id < 2 ^ 32)
