-- ===== src/Tests/States.antt =====
-- Concrete senders, receivers and frames.
use num8_lup.Base.{
  ℕ, zero, suc, ◌<◌, subst, ◌^◌, ◌≡◌, inl, inr, refl, arith, Bool, true, false, some, List, [], ◌∷◌,
}
use num8_lup.Op.{DataPayload, encode_data}
use num8_lup.Sender.{SenderOp, Slot, Sender, zero_op, poll_tx, slot_at}
use num8_lup.Sender.TransmitInv.{poll_tx-Inv}
use num8_lup.Sender.Unique.{Unique}
use num8_lup.Session.Offers.{IsSender}
use num8_lup.Session.Delivery.{IsPeer}
use num8_lup.Receiver.Answers.{IsReceiver}
use num8_lup.Receiver.History.{History}
use num8_lup.Sender.Inv.{Inv}
use num8_lup.Receiver.{Receiver}

abbrev pub first_op : SenderOp
first_op = record { op_id = 1; op_type = 1; value = 42 }

abbrev pub nine : Slot
nine = record {
  receiver_id = 9;
  last_acked_op_id = 0;
  inflight_op_id = 0;
  due_at_ms = 0;
  waiting_ack = false;
  retries = 0;
  active = true;
  exhausted = false;
}

-- A sender with one operation and one receiver that needs it.
abbrev pub ready : Sender
ready = record {
  sender_id = 7;
  seq = 1;
  stream_id = 100;
  latest_op_id = 1;
  oldest_retained_op_id = 1;
  op_head = 0;
  poll_cursor = 0;
  ack_timeout_ms = 50;
  max_retries = 3;
  has_ops = true;
  ops = first_op ∷ zero_op ∷ [];
  op_capacity = 2;
  op_count = 1;
  has_receivers = true;
  receivers = nine ∷ [];
  receiver_capacity = 1;
}

pub ready-Inv : Inv ready
ready-Inv = record {
  log = record {
    storage = refl;
    small = omega arith;
    head_in = omega arith;
    count_in = omega arith;
    numbers = refl;
    positive = omega arith;
    ids_left = omega arith;
    is_log = (refl, inl refl, omega arith, tt);
  };
  slots = (((λ w. cc), omega arith), tt);
  table = refl;
  small_table = omega arith;
  small_retries = omega arith;
}

abbrev pub fresh : Receiver
fresh = record {
  receiver_id = 9;
  expected_sender_id = 7;
  seq = 1;
  stream_id = 100;
  last_applied_op_id = 0;
}

-- The frame that `ready` sends to receiver 9, and the sender afterwards.
abbrev pub data_frame : List ℕ
data_frame =
    1 ∷ 35 ∷ 7 ∷ 0 ∷ 9 ∷ 0 ∷ 1 ∷ 0 ∷ 100 ∷ 0 ∷ 0 ∷ 0 ∷ 1 ∷ 0 ∷ 0 ∷ 0 ∷ 1 ∷ 0 ∷ 0 ∷ 0 ∷ 42 ∷ 0 ∷ 0
    ∷ 0 ∷ 199 ∷ 47 ∷ []

abbrev pub waiting : Sender
waiting = record ready {
  seq = 2;
  receivers = record nine { inflight_op_id = 1; due_at_ms = 50; waiting_ack = true } ∷ [];
}

pub ready_sends : poll_tx ready 0 64 ≡ (some (data_frame, 9), waiting)
unfolding poll_tx num8_lup.Sender.sender_reclaim_history num8_lup.Sender.sender_active_floor
    num8_lup.Sender.floor_loop num8_lup.Sender.poll_loop num8_lup.Sender.visit num8_lup.Sender.wrap
    num8_lup.Sender.transmit num8_lup.Sender.emit_data num8_lup.Sender.find_op encode_data
    num8_lup.Codec.write_u16_le num8_lup.Sender.deadline_after num8_lup.Codec.write_u32_le
    num8_lup.Codec.crc16_ccitt_false
ready_sends = refl

pub waiting-Inv : Inv waiting
waiting-Inv = subst (λ p. Inv p.1) ready_sends (poll_tx-Inv ready 0 64 ready-Inv)

pub ready-IsSender : IsSender ready
ready-IsSender = record {
  id = omega arith;
  stream = omega arith;
  seq = omega arith;
  receivers = λ i. small i;
  acked = λ i. zeros i;
}
  where
    small : (i : ℕ) → (slot_at ready i).receiver_id < 2 ^ 16
    small zero = omega arith
    small (suc i) = omega arith

    zeros : (i : ℕ) → (slot_at ready i).last_acked_op_id < 2 ^ 32
    zeros zero = omega arith
    zeros (suc i) = omega arith

pub ready-Unique : Unique ready.receivers
ready-Unique zero zero a b e = refl
ready-Unique zero (suc j) a b e = cc
ready-Unique (suc i) j a b e = cc

pub fresh-IsReceiver : IsReceiver fresh
fresh-IsReceiver = record {
  id = omega arith;
  id_used = omega arith;
  stream = omega arith;
  stream_used = omega arith;
  seq = omega arith;
}

pub fresh-IsPeer : IsPeer ready 0 fresh
fresh-IsPeer = record {
  ok = fresh-IsReceiver;
  id = refl;
  stream = refl;
  knows = inr refl;
  level = refl;
}

-- A callback that accepts every operation.
abbrev pub accept_all : History → ℕ → ℕ → Bool
accept_all user op_type value = true

abbrev pub first_data : DataPayload
first_data = record {
  stream_id = 100;
  op_id = 1;
  op_type = 1;
  reserved0 = 0;
  reserved1 = 0;
  value = 42;
}

pub first_data_made : encode_data 64 7 9 1 first_data ≡ some data_frame
unfolding encode_data num8_lup.Codec.write_u16_le num8_lup.Codec.write_u32_le
    num8_lup.Codec.crc16_ccitt_false
first_data_made = refl

-- Operation 3, of which `fresh` is not next in line.
abbrev pub gap_frame : List ℕ
gap_frame =
    1 ∷ 35 ∷ 7 ∷ 0 ∷ 9 ∷ 0 ∷ 1 ∷ 0 ∷ 100 ∷ 0 ∷ 0 ∷ 0 ∷ 3 ∷ 0 ∷ 0 ∷ 0 ∷ 1 ∷ 0 ∷ 0 ∷ 0 ∷ 42 ∷ 0 ∷ 0
    ∷ 0 ∷ 45 ∷ 41 ∷ []

-- A beacon, and one frame of each other type.
abbrev pub beacon_frame : List ℕ
beacon_frame = 1 ∷ 33 ∷ 7 ∷ 0 ∷ 0 ∷ 0 ∷ 1 ∷ 0 ∷ 100 ∷ 0 ∷ 0 ∷ 0 ∷ 1 ∷ 0 ∷ 0 ∷ 0 ∷ 228 ∷ 26 ∷ []

abbrev pub request_frame : List ℕ
request_frame = 1 ∷ 34 ∷ 9 ∷ 0 ∷ 7 ∷ 0 ∷ 1 ∷ 0 ∷ 100 ∷ 0 ∷ 0 ∷ 0 ∷ 1 ∷ 0 ∷ 0 ∷ 0 ∷ 134 ∷ 17 ∷ []

abbrev pub ack_frame : List ℕ
ack_frame = 1 ∷ 36 ∷ 9 ∷ 0 ∷ 7 ∷ 0 ∷ 1 ∷ 0 ∷ 100 ∷ 0 ∷ 0 ∷ 0 ∷ 1 ∷ 0 ∷ 0 ∷ 0 ∷ 237 ∷ 199 ∷ []

abbrev pub nack_frame : List ℕ
nack_frame =
    1 ∷ 37 ∷ 9 ∷ 0 ∷ 7 ∷ 0 ∷ 1 ∷ 0 ∷ 100 ∷ 0 ∷ 0 ∷ 0 ∷ 6 ∷ 0 ∷ 0 ∷ 0 ∷ 1 ∷ 0 ∷ 0 ∷ 0 ∷ 90 ∷ 111 ∷ []
