-- ===== src/Receiver/Defs.antt =====
-- The struct and the functions of src/num8lora_receiver.c.
use num8_lup.Base.{
  ℕ, ◌+◌, Bool, false, not, ◌||◌, ◌&&◌, Option, none, some, List, ltb, leb, ◌==◌, if◌then◌else◌,
}
use num8_lup.Base.Words.{u16, u32}
use num8_lup.Op.{
  CommonHeader, DataPayload, clear_common, protocol_version, op_add, op_remove, max_value,
  err_receiver, err_stream, err_invalid_value, err_sequence_gap, err_apply_failed, encode_request,
  encode_ack, encode_nack, decode_beacon, decode_data,
}

pub record Receiver : Type 0 where
  pub receiver_id : ℕ
  pub expected_sender_id : ℕ
  pub seq : ℕ
  pub stream_id : ℕ
  pub last_applied_op_id : ℕ

abbrev pub ack_frame_len : ℕ
ack_frame_len = 18

abbrev pub nack_frame_len : ℕ
nack_frame_len = 22

-- `last_applied_op_id + 1u`.
abbrev pub expected_op_id : Receiver → ℕ
expected_op_id r = u32 (r.last_applied_op_id + 1)

-- `r->seq++`.
abbrev pub count_frame : Receiver → Receiver
count_frame r = record r { seq = u16 (r.seq + 1) }

unfoldable pub receiver_init : ℕ → ℕ → ℕ → ℕ → Receiver
receiver_init receiver_id expected_sender_id stream_id last_applied_op_id = record {
  receiver_id = receiver_id;
  expected_sender_id = expected_sender_id;
  seq = 1;
  stream_id = stream_id;
  last_applied_op_id = last_applied_op_id;
}

-- `some` is the return value 1, with the frame for the sender.
unfoldable pub handle_beacon : Receiver → List ℕ → ℕ → Option (List ℕ) × Receiver
handle_beacon r in_buf out_cap =
    let (decoded, hdr, b) = decode_beacon in_buf clear_common in
    if not decoded
    then (none, r)
    else if not (r.expected_sender_id == 0) && not (hdr.sender_id == r.expected_sender_id)
    then (none, r)
    else if not (b.stream_id == r.stream_id)
    then (none, r)
    else if leb b.latest_op_id r.last_applied_op_id
    then (none, r)
    else (
      encode_request out_cap r.receiver_id hdr.sender_id r.seq
          (record { stream_id = r.stream_id; next_needed_op_id = expected_op_id r }),
      count_frame r,
    )

-- `nack.…; return num8lora_op_encode_nack(…, r->seq++, …)`.
unfoldable pub answer_nack : Receiver → ℕ → ℕ → ℕ → Option (List ℕ) × Receiver
answer_nack r sender_id error_code out_cap = (
  encode_nack out_cap r.receiver_id sender_id r.seq (record {
    stream_id = r.stream_id;
    error_code = error_code;
    detail = 0;
    expected_next_op_id = expected_op_id r;
  }),
  count_frame r,
)

-- `ack.…; return num8lora_op_encode_ack(…, r->seq++, …)`.
unfoldable pub answer_ack : Receiver → ℕ → ℕ → Option (List ℕ) × Receiver
answer_ack r sender_id out_cap = (
  encode_ack out_cap r.receiver_id sender_id r.seq
      (record { stream_id = r.stream_id; ack_op_id = r.last_applied_op_id }),
  count_frame r,
)

-- `if (out_cap < NACK_FRAME_LEN) return 0;` and the same for an ACK.
unfoldable pub room_for : ℕ → ℕ → Receiver → Option (List ℕ) × Receiver → Option (List ℕ) × Receiver
room_for size out_cap r answer = if ltb out_cap size then (none, r) else answer

-- The tests on a decoded frame that need no callback.
unfoldable pub refuse_data :
    Receiver → CommonHeader → DataPayload → ℕ → Option (Option (List ℕ) × Receiver)
refuse_data r hdr d out_cap =
    if not (hdr.protocol_version == protocol_version) || not (hdr.receiver_id == r.receiver_id)
    then some (none, r)
    else if not (r.expected_sender_id == 0) && not (hdr.sender_id == r.expected_sender_id)
    then some (answer_nack r hdr.sender_id err_receiver out_cap)
    else if not (d.stream_id == r.stream_id)
    then some (room_for nack_frame_len out_cap r (answer_nack r hdr.sender_id err_stream out_cap))
    else if ltb max_value d.value || (not (d.op_type == op_add) && not (d.op_type == op_remove))
    then some
        (room_for nack_frame_len out_cap r (answer_nack r hdr.sender_id err_invalid_value out_cap))
    else if leb d.op_id r.last_applied_op_id
    then some (room_for ack_frame_len out_cap r (answer_ack r hdr.sender_id out_cap))
    else if not (d.op_id == expected_op_id r)
    then some
        (room_for nack_frame_len out_cap r (answer_nack r hdr.sender_id err_sequence_gap out_cap))
    else none

abbrev pub ApplyFn : Type 0 → Type 0
ApplyFn U = U → ℕ → ℕ → Bool × U

module _ {U : Type 0} where
  -- `apply_fn == NULL || !apply_fn(apply_user, op_type, value)`, negated.
  unfoldable pub try_apply : Option (ApplyFn U) → U → ℕ → ℕ → Bool × U
  try_apply none user op_type value = (false, user)
  try_apply (some apply) user op_type value = apply user op_type value

  -- From the acceptance of the operation's number on.
  unfoldable pub apply_data :
      Option (ApplyFn U) → U → Receiver → ℕ → DataPayload → ℕ → Option (List ℕ) × Receiver × U
  unfolding try_apply
  apply_data apply_fn user r sender_id d out_cap =
      if ltb out_cap nack_frame_len
      then (none, r, user)
      else let (applied, user') = try_apply apply_fn user d.op_type d.value in
        if not applied
        then (let (answer, r') = answer_nack r sender_id err_apply_failed out_cap in
            (answer, r', user'))
        else let moved = record r { last_applied_op_id = d.op_id } in
          let (answer, r') =
            room_for ack_frame_len out_cap moved (answer_ack moved sender_id out_cap) in
          (answer, r', user')

  unfoldable pub handle_data :
      Option (ApplyFn U) → U → Receiver → List ℕ → ℕ → Option (List ℕ) × Receiver × U
  handle_data apply_fn user r in_buf out_cap =
      let (decoded, hdr, d) = decode_data in_buf clear_common in
      if not decoded then (none, r, user) else elim (refuse_data r hdr d out_cap) [
        | some (answer, r') ↦ (answer, r', user)
        | none ↦ apply_data apply_fn user r hdr.sender_id d out_cap
      ]
