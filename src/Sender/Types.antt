-- ===== src/Sender/Types.antt =====
-- The structs of include/num8lora_sender.h.
use num8_lup.Base.{ℕ, ◌+◌, Bool, false, List, set, get_or}
use num8_lup.Base.Words.{u32}

pub record SenderOp : Type 0 where
  pub op_id : ℕ
  pub op_type : ℕ
  pub value : ℕ

-- The `uint8_t` flags hold 0 or 1.
pub record Slot : Type 0 where
  pub receiver_id : ℕ
  pub last_acked_op_id : ℕ
  pub inflight_op_id : ℕ
  pub due_at_ms : ℕ
  pub waiting_ack : Bool
  pub retries : ℕ
  pub active : Bool
  pub exhausted : Bool

-- `has_ops` and `has_receivers` tell whether the storage pointers are non-NULL.
pub record Sender : Type 0 where
  pub sender_id : ℕ
  pub seq : ℕ
  pub stream_id : ℕ
  pub latest_op_id : ℕ
  pub oldest_retained_op_id : ℕ
  pub op_head : ℕ
  pub poll_cursor : ℕ
  pub ack_timeout_ms : ℕ
  pub max_retries : ℕ
  pub has_ops : Bool
  pub ops : List SenderOp
  pub op_capacity : ℕ
  pub op_count : ℕ
  pub has_receivers : Bool
  pub receivers : List Slot
  pub receiver_capacity : ℕ

-- Zeroed array elements.
abbrev pub zero_op : SenderOp
zero_op = record { op_id = 0; op_type = 0; value = 0 }

abbrev pub zero_slot : Slot
zero_slot = record {
  receiver_id = 0;
  last_acked_op_id = 0;
  inflight_op_id = 0;
  due_at_ms = 0;
  waiting_ack = false;
  retries = 0;
  active = false;
  exhausted = false;
}

abbrev pub max_value : ℕ
max_value = 99999999

-- `last_acked_op_id + 1u`: the operation that a receiver needs next.
abbrev pub next_op_id : Slot → ℕ
next_op_id slot = u32 (slot.last_acked_op_id + 1)

abbrev pub slot_at : Sender → ℕ → Slot
slot_at s i = get_or s.receivers i zero_slot

abbrev pub put_slot : Sender → ℕ → Slot → Sender
put_slot s i slot = record s { receivers = set s.receivers i slot }
