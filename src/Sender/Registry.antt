-- ===== src/Sender/Registry.antt =====
-- The sender's start and its table of receivers.
use num8_lup.Base.{
  ℕ, suc, ◌-◌, ◌*◌, ◌/◌, Bool, true, false, not, ◌||◌, ◌&&◌, Option, none, some, List, [], ◌∷◌, ltb,
  leb, ◌==◌, if◌then◌else◌,
}
use num8_lup.Base.Words.{u32}
use num8_lup.Sender.Types.{SenderOp, Slot, Sender, zero_op, zero_slot, slot_at, put_slot}
use num8_lup.Sender.Log.{sender_reclaim_history}
use mathlib.Core.Option

-- The first active slot of that receiver, as its index.
unfoldable pub find_slot : List Slot → ℕ → Option ℕ
find_slot [] rid = none
find_slot (slot ∷ slots) rid =
    if slot.active && slot.receiver_id == rid then some 0 else Option.map suc (find_slot slots rid)

unfoldable pub storage_pair_is_valid : Bool → ℕ → ℕ → ℕ → Bool
storage_pair_is_valid non_null capacity elem_size size_max =
    if capacity == 0
    then true
    else if not non_null || elem_size == 0
    then false
    else leb capacity (size_max / elem_size)

-- What `num8lora_codec_zero_bytes` leaves of the struct.
abbrev pub zero_sender : Sender
zero_sender = record {
  sender_id = 0;
  seq = 0;
  stream_id = 0;
  latest_op_id = 0;
  oldest_retained_op_id = 0;
  op_head = 0;
  poll_cursor = 0;
  ack_timeout_ms = 0;
  max_retries = 0;
  has_ops = false;
  ops = [];
  op_capacity = 0;
  op_count = 0;
  has_receivers = false;
  receivers = [];
  receiver_capacity = 0;
}

-- The platform's `SIZE_MAX` and element sizes, and what is left of an element of which only so many
-- of its first bytes are zeroed.
pub record Platform : Type 0 where
  pub size_max : ℕ
  pub sizeof_op : ℕ
  pub sizeof_slot : ℕ
  pub cut_op : ℕ → SenderOp → SenderOp
  pub cut_slot : ℕ → Slot → Slot

-- `num8lora_codec_zero_bytes` on an array of structs: it zeroes the first `bytes` bytes.
unfoldable pub zero_elements {ℓ} : {A : Type ℓ} → (ℕ → A → A) → A → ℕ → ℕ → List A → List A
zero_elements cut zeroed size bytes [] = []
zero_elements cut zeroed size bytes (x ∷ xs) =
    (if leb size bytes then zeroed else if bytes == 0 then x else cut bytes x)
    ∷ zero_elements cut zeroed size (bytes - size) xs

-- The test of the storage pointer and the capacity, and the call with its byte count cast to 32 bits.
unfoldable pub clear_storage {ℓ} : {A : Type ℓ} → (ℕ → A → A) → A → ℕ → ℕ → Option (List A) → List A
unfolding zero_elements
clear_storage cut zeroed size capacity none = []
clear_storage cut zeroed size capacity (some xs) =
    if ltb 0 capacity then zero_elements cut zeroed size (u32 (capacity * size)) xs else xs

abbrev pub non_null {ℓ} : {A : Type ℓ} → Option A → Bool
non_null none = false
non_null (some a) = true

-- A storage argument is the array that the caller gives, or `none` for NULL.
unfoldable pub sender_init :
    Platform → ℕ → ℕ → ℕ → ℕ → Option (List SenderOp) → ℕ → Option (List Slot) → ℕ → Sender
unfolding storage_pair_is_valid clear_storage
sender_init platform sender_id stream_id ack_timeout_ms max_retries ops_buf ops_capacity
      receiver_buf receiver_capacity =
    if not
        (storage_pair_is_valid (non_null ops_buf) ops_capacity platform.sizeof_op platform.size_max)
      || not (
          storage_pair_is_valid (non_null receiver_buf) receiver_capacity platform.sizeof_slot
            platform.size_max)
    then zero_sender
    else record zero_sender {
      sender_id = sender_id;
      seq = 1;
      stream_id = stream_id;
      oldest_retained_op_id = 1;
      ack_timeout_ms = ack_timeout_ms;
      max_retries = max_retries;
      has_ops = non_null ops_buf;
      ops = clear_storage platform.cut_op zero_op platform.sizeof_op ops_capacity ops_buf;
      op_capacity = ops_capacity;
      has_receivers = non_null receiver_buf;
      receivers =
          clear_storage platform.cut_slot zero_slot platform.sizeof_slot receiver_capacity
            receiver_buf;
      receiver_capacity = receiver_capacity;
    }

-- The loop that looks for an unused slot.
unfoldable pub free_slot : List Slot → Option ℕ
free_slot [] = none
free_slot (slot ∷ slots) = if not slot.active then some 0 else Option.map suc (free_slot slots)

unfoldable pub register_receiver : Sender → ℕ → ℕ → Bool × Sender
register_receiver s receiver_id last_acked_op_id =
    if not s.has_receivers || receiver_id == 0
    then (false, s)
    else let r = sender_reclaim_history s in
      elim (find_slot r.receivers receiver_id) [
        | some _ ↦ (true, r)
        | none ↦ elim (free_slot r.receivers) [
          | none ↦ (false, r)
          | some i ↦ (
            true,
            put_slot r i (record (slot_at r i) {
              active = true;
              receiver_id = receiver_id;
              last_acked_op_id = last_acked_op_id;
              exhausted = false;
            }),
          )
        ]
      ]

unfoldable pub set_receiver_progress : Sender → ℕ → ℕ → Bool × Sender
set_receiver_progress s receiver_id last_acked_op_id = elim (find_slot s.receivers receiver_id) [
  | none ↦ (false, s)
  | some i ↦ (
    true,
    sender_reclaim_history (
        put_slot s i (record (slot_at s i) {
          last_acked_op_id = last_acked_op_id;
          waiting_ack = false;
          inflight_op_id = 0;
          retries = 0;
          exhausted = false;
        })),
  )
]

unfoldable pub unregister_receiver : Sender → ℕ → Bool × Sender
unregister_receiver s receiver_id = elim (find_slot s.receivers receiver_id) [
  | none ↦ (false, s)
  | some i ↦ (
    true,
    sender_reclaim_history (
        put_slot s i (record (slot_at s i) {
          active = false;
          waiting_ack = false;
          inflight_op_id = 0;
          retries = 0;
          exhausted = false;
        })),
  )
]
