-- ===== src/Runtime/Sender.antt =====
-- The sender of src/num8lora_runtime.c. An operation that fills a buffer returns the frame that it
-- wrote, `none` for the return value 0, and the context afterwards.
use num8_lup.Base.{
  ℕ, ◌+◌, ◌*◌, Bool, true, false, not, ◌||◌, ◌&&◌, Option, none, some, List, ltb, leb, ◌==◌,
  if◌then◌else◌,
}
use num8_lup.Base.Words.{u16, u32, u8}
use num8_lup.Batch.{
  Numbers, UpdateHeader, BeaconPayload, NackPayload, clear_update, validate_update_numbers,
  compute_update_payload_crc16, encode_beacon, encode_update_data, encode_nack, classify_frame,
  decode_update_request, decode_ack, decode_nack, msg_update_request, msg_ack, msg_nack, err_none,
  err_busy, err_internal, err_dataset_version_mismatch, err_update_id_unknown,
}
use num8_lup.Runtime.Types.{
  idle, wait_request, wait_ack, AckResult, no_result, applied, nacked, SenderCtx, is_wait_request,
  is_wait_ack,
}

unfoldable pub sender_init : ℕ → ℕ → SenderCtx
sender_init sender_id max_retries = record {
  state = idle;
  sender_id = sender_id;
  target_receiver_id = 0;
  seq = 1;
  max_retries = max_retries;
  retries = 0;
  update_hdr = clear_update;
  remove_numbers = none;
  add_numbers = none;
  update_payload_crc16 = 0;
  last_nack_error = 0;
}

-- The return value, `*out_error_code` and the context. `num8lora_compute_update_payload_crc16` sets
-- the context's CRC to 0 when it fails.
unfoldable pub sender_set_update :
    SenderCtx → ℕ → UpdateHeader → Numbers → Numbers → Bool × ℕ × SenderCtx
sender_set_update ctx target_receiver_id hdr remove_numbers add_numbers =
    if is_wait_ack ctx.state
    then (false, err_busy, ctx)
    else if leb hdr.dataset_version_to hdr.dataset_version_from || not (hdr.reserved0 == 0)
    then (false, err_dataset_version_mismatch, ctx)
    else elim (validate_update_numbers hdr remove_numbers add_numbers) [
      | some error ↦ (false, error, ctx)
      | none ↦ elim (compute_update_payload_crc16 hdr remove_numbers add_numbers) [
        | none ↦ (false, err_internal, record ctx { update_payload_crc16 = 0 })
        | some crc ↦ (
          true,
          err_none,
          record ctx {
            state = wait_request;
            target_receiver_id = target_receiver_id;
            retries = 0;
            update_hdr = hdr;
            remove_numbers = remove_numbers;
            add_numbers = add_numbers;
            update_payload_crc16 = crc;
            last_nack_error = err_none;
          },
        )
      ]
    ]

-- The beacon that announces the context's update.
unfoldable pub beacon_of : SenderCtx → BeaconPayload
beacon_of ctx =
    let hdr = ctx.update_hdr in
    record {
      current_update_id = hdr.update_id;
      dataset_version_from = hdr.dataset_version_from;
      dataset_version_to = hdr.dataset_version_to;
      remove_count = hdr.remove_count;
      add_count = hdr.add_count;
      update_payload_size = u16 (16 + 4 * hdr.remove_count + 4 * hdr.add_count);
      update_payload_crc16 = ctx.update_payload_crc16;
    }

unfoldable pub sender_build_beacon : SenderCtx → ℕ → Option (List ℕ) × SenderCtx
sender_build_beacon ctx out_cap =
    if ltb out_cap 28
    then (none, ctx)
    else elim (encode_beacon out_cap ctx.sender_id ctx.seq (beacon_of ctx)) [
      | none ↦ (none, ctx)
      | some f ↦ (some f, record ctx { seq = u16 (ctx.seq + 1) })
    ]

unfoldable pub sender_emit_update : SenderCtx → ℕ → ℕ → ℕ → Option (List ℕ)
sender_emit_update ctx receiver_id seq out_cap =
    encode_update_data out_cap ctx.sender_id receiver_id seq ctx.update_hdr ctx.remove_numbers
      ctx.add_numbers

-- The part under `if (send_nack)`, with the error of the NACK recorded before it.
unfoldable pub refuse_request : SenderCtx → ℕ → ℕ → ℕ → ℕ → Option (List ℕ) × SenderCtx
refuse_request ctx receiver_id update_id error out_cap =
    let noted = record ctx { last_nack_error = error } in
    let nack : NackPayload = record {
      nack_update_id = update_id;
      error_code = error;
      detail = 0;
    } in
    if ltb out_cap 18
    then (none, noted)
    else elim (encode_nack out_cap ctx.sender_id receiver_id ctx.seq nack) [
      | none ↦ (none, noted)
      | some f ↦ (some f, record noted { seq = u16 (ctx.seq + 1); state = idle })
    ]

-- The part after it, which sends the update.
unfoldable pub answer_request : SenderCtx → ℕ → ℕ → Option (List ℕ) × SenderCtx
answer_request ctx receiver_id out_cap =
    if ltb out_cap (u32 (26 + 4 * ctx.update_hdr.remove_count + 4 * ctx.update_hdr.add_count))
    then (none, ctx)
    else elim (sender_emit_update ctx receiver_id ctx.seq out_cap) [
      | none ↦ (none, ctx)
      | some f ↦ (
        some f,
        record ctx {
          seq = u16 (ctx.seq + 1);
          target_receiver_id = receiver_id;
          state = wait_ack;
          retries = 0;
        },
      )
    ]

unfoldable pub sender_handle_update_request : SenderCtx → List ℕ → ℕ → Option (List ℕ) × SenderCtx
sender_handle_update_request ctx b out_cap =
    let (accepted, hdr, err) = classify_frame b ctx.sender_id msg_update_request in
    let (decoded, hdr', req) = decode_update_request b hdr in
    let up = ctx.update_hdr in
    if not (is_wait_request ctx.state || is_wait_ack ctx.state)
    then (none, ctx)
    else if not accepted
    then (none, ctx)
    else if not decoded
    then refuse_request ctx hdr'.sender_id up.update_id
        (if err == err_none then err_internal else err) out_cap
    else if not (req.requested_update_id == up.update_id)
    then refuse_request ctx hdr'.sender_id req.requested_update_id err_update_id_unknown out_cap
    else if not (req.receiver_dataset_ver == up.dataset_version_from)
    then refuse_request ctx hdr'.sender_id req.requested_update_id err_dataset_version_mismatch
        out_cap
    else answer_request ctx hdr'.sender_id out_cap

-- The return value, `*out_result`, `*out_nack_error_code` and the context.
unfoldable pub sender_handle_ack_or_nack : SenderCtx → List ℕ → Bool × AckResult × ℕ × SenderCtx
sender_handle_ack_or_nack ctx b =
    let ignored : Bool × AckResult × ℕ × SenderCtx = (false, no_result, err_none, ctx) in
    let (accepted, hdr, err) = classify_frame b ctx.sender_id 0 in
    let (ack_decoded, ack_hdr, ack) = decode_ack b hdr in
    let (nack_decoded, nack_hdr, nack) = decode_nack b hdr in
    if not (is_wait_ack ctx.state)
    then ignored
    else if not accepted
    then ignored
    else if hdr.msg_type == msg_ack
    then if not ack_decoded
      then ignored
      else if ack.ack_update_id == ctx.update_hdr.update_id
          && ack.receiver_dataset_ver == ctx.update_hdr.dataset_version_to
      then (true, applied, err_none, record ctx { state = idle; retries = 0 })
      else ignored
    else if hdr.msg_type == msg_nack
    then if not nack_decoded then ignored else (
      true,
      nacked,
      nack.error_code,
      record ctx { last_nack_error = nack.error_code; state = idle },
    )
    else ignored

unfoldable pub sender_on_ack_timeout : SenderCtx → ℕ → Option (List ℕ) × SenderCtx
sender_on_ack_timeout ctx out_cap =
    if not (is_wait_ack ctx.state)
    then (none, ctx)
    else if leb ctx.max_retries ctx.retries
    then (none, record ctx { state = idle })
    else let counted = record ctx { retries = u8 (ctx.retries + 1) } in
      elim (sender_emit_update counted ctx.target_receiver_id ctx.seq out_cap) [
        | none ↦ (none, counted)
        | some f ↦ (some f, record counted { seq = u16 (ctx.seq + 1) })
      ]
