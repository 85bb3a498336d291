-- ===== src/Sender/Transmit.antt =====
-- Sending: the beacon, one DATA frame, and the round of `num8lora_sender_poll_tx`.
use num8_lup.Base.{
  ℕ, zero, suc, ◌+◌, ◌-◌, ◌%◌, ◌^◌, true, false, not, ◌||◌, Option, none, some, List, ltb, leb,
  ◌==◌, if◌then◌else◌,
}
use num8_lup.Base.Words.{u8, u16, u32}
use num8_lup.Op.{DataPayload, encode_data, encode_beacon}
use num8_lup.Sender.Types.{SenderOp, Slot, Sender, slot_at, put_slot, next_op_id}
use num8_lup.Sender.Log.{wrap, find_op, sender_reclaim_history}

abbrev pub uint64_max : ℕ
uint64_max = 2 ^ 64 - 1

unfoldable pub deadline_after : ℕ → ℕ → ℕ
deadline_after now_ms timeout_ms =
    if timeout_ms == 0
    then now_ms
    else if ltb (uint64_max - now_ms) timeout_ms
    then uint64_max
    else now_ms + timeout_ms

unfoldable pub data_payload : Sender → SenderOp → DataPayload
data_payload s op = record {
  stream_id = s.stream_id;
  op_id = op.op_id;
  op_type = op.op_type;
  reserved0 = 0;
  reserved1 = 0;
  value = op.value;
}

-- `some` is the return value 1, with the frame. `s->seq++` happens before the encoder answers.
unfoldable pub emit_data : Sender → ℕ → ℕ → ℕ → ℕ → Option (List ℕ) × Sender
unfolding data_payload
emit_data s index op_id out_cap now_ms = elim (find_op s op_id) [
  | none ↦ (none, s)
  | some op ↦
      if s.seq == 0xFFFF
      then (none, s)
      else let slot = slot_at s index in
        let counted = record s { seq = u16 (s.seq + 1) } in
        elim (encode_data out_cap s.sender_id slot.receiver_id s.seq (data_payload s op)) [
          | none ↦ (none, counted)
          | some frame ↦ (
            some frame,
            put_slot counted index (record slot {
              inflight_op_id = op_id;
              waiting_ack = true;
              exhausted = false;
              due_at_ms = deadline_after now_ms s.ack_timeout_ms;
            }),
          )
        ]
]

unfoldable pub build_beacon : Sender → ℕ → Option (List ℕ)
build_beacon s out_cap =
    if s.seq == 0xFFFF
    then none
    else encode_beacon out_cap s.sender_id s.seq
        (record { stream_id = s.stream_id; latest_op_id = s.latest_op_id })

-- What one round of the polling loop does: `continue`, `return 0`, or `return 1` with a frame and
-- the receiver that it is for.
pub data Visit : Type 0 where
  skipped : Sender → Visit
  stopped : Sender → Visit
  sent : List ℕ → ℕ → Sender → Visit

-- The end of a round that calls `emit_data`: the target, and the cursor behind the slot.
unfoldable pub transmit : Sender → ℕ → ℕ → ℕ → ℕ → (Slot → Slot) → Visit
transmit s index op_id out_cap now_ms finish =
    let (answer, s') = emit_data s index op_id out_cap now_ms in
    elim answer [
      | none ↦ stopped s'
      | some frame ↦
          sent frame (slot_at s' index).receiver_id
            (record (put_slot s' index (finish (slot_at s' index))) {
              poll_cursor = u32 (index + 1) % s.receiver_capacity;
            })
    ]

-- The round of a slot that waits for an acknowledgement.
unfoldable pub retry : Sender → ℕ → ℕ → ℕ → Visit
retry s index out_cap now_ms =
    let slot = slot_at s index in
    if ltb now_ms slot.due_at_ms
    then skipped s
    else if leb s.max_retries slot.retries
    then skipped (
        put_slot s index
          (record slot { waiting_ack = false; inflight_op_id = 0; retries = 0; exhausted = true }))
    else transmit (put_slot s index (record slot { retries = u8 (slot.retries + 1) })) index
        slot.inflight_op_id out_cap now_ms (λ x. x)

unfoldable pub visit : Sender → ℕ → ℕ → ℕ → Visit
visit s index out_cap now_ms =
    let slot = slot_at s index in
    let target = next_op_id slot in
    if not slot.active || slot.exhausted
    then skipped s
    else if slot.waiting_ack
    then retry s index out_cap now_ms
    else if ltb s.latest_op_id target || ltb target s.oldest_retained_op_id
    then skipped s
    else transmit s index target out_cap now_ms (λ x. record x { retries = 0 })

-- The rounds that are left, the next one with counter `i`.
unfoldable pub poll_loop : ℕ → ℕ → ℕ → Sender → ℕ → ℕ → Option (List ℕ × ℕ) × Sender
poll_loop zero i start s out_cap now_ms = (none, s)
poll_loop (suc n) i start s out_cap now_ms =
    elim (visit s (wrap (u32 (start + i)) s.receiver_capacity) out_cap now_ms) [
      | skipped s' ↦ poll_loop n (i + 1) start s' out_cap now_ms
      | stopped s' ↦ (none, s')
      | sent frame target s' ↦ (some (frame, target), s')
    ]

-- `some` is the return value 1, with the frame and `*out_target_receiver_id`.
unfoldable pub poll_tx : Sender → ℕ → ℕ → Option (List ℕ × ℕ) × Sender
poll_tx s now_ms out_cap =
    let r = sender_reclaim_history s in
    if r.receiver_capacity == 0
    then (none, r)
    else poll_loop r.receiver_capacity 0 (r.poll_cursor % r.receiver_capacity) r out_cap now_ms
