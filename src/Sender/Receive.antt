-- ===== src/Sender/Receive.antt =====
-- Frames from the receivers: `num8lora_sender_handle_request` and `num8lora_sender_handle_rx`.
use num8_lup.Base.{
  ℕ, ◌+◌, Bool, true, false, not, ◌||◌, ◌&&◌, Option, none, some, List, ltb, ◌==◌, if◌then◌else◌,
  get_or, length,
}
use num8_lup.Base.Words.{u16, u32}
use num8_lup.Op.{
  CommonHeader, NackPayload, RequestPayload, AckPayload, clear_common, protocol_version,
  msg_request, msg_ack, msg_nack, err_history_unavailable, encode_nack, decode_request, decode_ack,
  decode_nack,
}
use num8_lup.Sender.Types.{Slot, Sender, slot_at, put_slot, next_op_id}
use num8_lup.Sender.Log.{sender_reclaim_history}
use num8_lup.Sender.Registry.{find_slot}

-- The tests on the slot and the header that all handlers make.
unfoldable pub is_for_slot : Sender → Slot → CommonHeader → Bool
is_for_slot s slot hdr =
    slot.active && (hdr.protocol_version == protocol_version && hdr.receiver_id == s.sender_id)

unfoldable pub handle_request : Sender → List ℕ → ℕ → Option (List ℕ) × Sender
handle_request s in_buf out_cap =
    let (decoded, hdr, p) = decode_request in_buf clear_common in
    if ltb (length in_buf) 2 || not decoded
    then (none, s)
    else elim (find_slot s.receivers hdr.sender_id) [
      | none ↦ (none, s)
      | some i ↦
          if not (is_for_slot s (slot_at s i) hdr)
          then (none, s)
          else if not (p.stream_id == s.stream_id)
          then (none, s)
          else if ltb p.next_needed_op_id s.oldest_retained_op_id
          then (if s.seq == 0xFFFF then (none, s) else (
            encode_nack out_cap s.sender_id (slot_at s i).receiver_id s.seq (record {
              stream_id = s.stream_id;
              error_code = err_history_unavailable;
              detail = 0;
              expected_next_op_id = s.oldest_retained_op_id;
            }),
            record s { seq = u16 (s.seq + 1) },
          ))
          else (none, s)
    ]

unfoldable pub on_request : Sender → ℕ → ℕ → RequestPayload → Bool × Sender
on_request s i now_ms req =
    let slot = slot_at s i in
    let needed = req.next_needed_op_id in
    if not (req.stream_id == s.stream_id)
    then (false, s)
    else if ltb needed s.oldest_retained_op_id
    then (false, s)
    else if ltb (u32 (s.latest_op_id + 1)) needed
    then (false, s)
    else if slot.exhausted && needed == next_op_id slot
    then (false, s)
    else if not (needed == next_op_id slot)
    then (false, s)
    else if slot.waiting_ack && not (slot.inflight_op_id == needed)
    then (false, s)
    else (true, put_slot s i (record slot { due_at_ms = now_ms }))

unfoldable pub on_ack : Sender → ℕ → AckPayload → Bool × Sender
on_ack s i ack =
    let slot = slot_at s i in
    if not (ack.stream_id == s.stream_id)
      || not slot.waiting_ack
      || slot.inflight_op_id == 0
      || not (ack.ack_op_id == slot.inflight_op_id)
    then (false, s)
    else (
      true,
      sender_reclaim_history (
          put_slot s i (record slot {
            last_acked_op_id = ack.ack_op_id;
            waiting_ack = false;
            inflight_op_id = 0;
            retries = 0;
            exhausted = false;
          })),
    )

unfoldable pub on_nack : Sender → ℕ → ℕ → NackPayload → Bool × Sender
on_nack s i now_ms nack =
    let slot = slot_at s i in
    let expected = nack.expected_next_op_id in
    if not (nack.stream_id == s.stream_id) || not slot.waiting_ack || slot.inflight_op_id == 0
    then (false, s)
    else if ltb expected s.oldest_retained_op_id || ltb (u32 (s.latest_op_id + 1)) expected
    then (false, s)
    else if not (expected == slot.inflight_op_id)
    then (false, s)
    else (
      true,
      sender_reclaim_history (
          put_slot s i (record slot {
            waiting_ack = false;
            inflight_op_id = 0;
            retries = 0;
            exhausted = false;
            due_at_ms = now_ms;
          })),
    )

-- Find the slot of the frame's sender, test it, and go on with the index.
unfoldable pub with_slot : Sender → CommonHeader → (ℕ → Bool × Sender) → Bool × Sender
with_slot s hdr go = elim (find_slot s.receivers hdr.sender_id) [
  | none ↦ (false, s)
  | some i ↦ if is_for_slot s (slot_at s i) hdr then go i else (false, s)
]

unfoldable pub handle_rx : Sender → ℕ → List ℕ → Bool × Sender
unfolding with_slot
handle_rx s now_ms in_buf =
    let msg_type = get_or in_buf 1 0 in
    let (is_request, request_hdr, req) = decode_request in_buf clear_common in
    let (is_ack, ack_hdr, ack) = decode_ack in_buf clear_common in
    let (is_nack, nack_hdr, nack) = decode_nack in_buf clear_common in
    if ltb (length in_buf) 2
    then (false, s)
    else if msg_type == msg_request
    then (if is_request
        then with_slot s request_hdr (λ i. on_request s i now_ms req)
        else (false, s))
    else if msg_type == msg_ack
    then (if is_ack then with_slot s ack_hdr (λ i. on_ack s i ack) else (false, s))
    else if msg_type == msg_nack
    then (if is_nack then with_slot s nack_hdr (λ i. on_nack s i now_ms nack) else (false, s))
    else (false, s)
