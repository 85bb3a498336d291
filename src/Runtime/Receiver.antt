-- ===== src/Runtime/Receiver.antt =====
-- The receiver of src/num8lora_runtime.c.
use num8_lup.Base.{
  ℕ, ◌+◌, ◌*◌, Bool, false, not, ◌||◌, ◌&&◌, Option, none, some, List, ltb, leb, ◌==◌,
  if◌then◌else◌, length,
}
use num8_lup.Base.Words.{u8, u16, u32}
use num8_lup.Op.{CommonHeader}
use num8_lup.Batch.{
  Numbers, UpdateHeader, UpdateRequestPayload, AckPayload, NackPayload, clear_update,
  validate_update_numbers, compute_update_payload_crc16, decode_update_numbers, is_null, too_small,
  encode_update_request, encode_ack, encode_nack, classify_frame, decode_beacon,
  decode_update_data_header, any_receiver_id, msg_beacon, msg_update_data, err_none, err_crc_fail,
  err_invalid_receiver_id, err_internal, err_dataset_version_mismatch, err_update_id_unknown,
  err_output_too_small,
}
use num8_lup.Runtime.Types.{scan, wait_update, ReceiverCtx, is_wait_update, ValidatedUpdate}

unfoldable pub update_payload_size : ℕ → ℕ → ℕ
update_payload_size remove_count add_count = u32 (16 + 4 * remove_count + 4 * add_count)

unfoldable pub receiver_init : ℕ → ℕ → ℕ → ℕ → ℕ → ReceiverCtx
receiver_init receiver_id expected_sender_id max_retries local_dataset_version
      last_applied_update_id =
    record {
      state = scan;
      receiver_id = receiver_id;
      expected_sender_id = expected_sender_id;
      seq = 1;
      max_retries = max_retries;
      retries = 0;
      local_dataset_version = local_dataset_version;
      last_applied_update_id = last_applied_update_id;
      last_applied_sender_id = 0;
      last_applied_receiver_id = receiver_id;
      last_applied_dataset_version_from = 0;
      last_applied_dataset_version_to = local_dataset_version;
      last_applied_remove_count = 0;
      last_applied_add_count = 0;
      last_applied_payload_size = 0;
      last_applied_payload_crc16 = 0;
      pending_update_id = 0;
      pending_dataset_version_from = 0;
      pending_dataset_version_to = 0;
      pending_remove_count = 0;
      pending_add_count = 0;
      pending_payload_size = 0;
      pending_payload_crc16 = 0;
    }

unfoldable pub receiver_handle_beacon : ReceiverCtx → List ℕ → ℕ → Option (List ℕ) × ReceiverCtx
receiver_handle_beacon ctx b out_cap =
    let (accepted, hdr, err) = classify_frame b any_receiver_id msg_beacon in
    let (decoded, hdr', p) = decode_beacon b hdr in
    let req : UpdateRequestPayload = record {
      requested_update_id = p.current_update_id;
      receiver_dataset_ver = ctx.local_dataset_version;
    } in
    if not accepted || not decoded
    then (none, ctx)
    else if not (ctx.expected_sender_id == 0) && not (hdr'.sender_id == ctx.expected_sender_id)
    then (none, ctx)
    else if leb p.dataset_version_to ctx.local_dataset_version
    then (none, ctx)
    else if ltb out_cap 18
    then (none, ctx)
    else elim (encode_update_request out_cap ctx.receiver_id hdr'.sender_id ctx.seq req) [
      | none ↦ (none, ctx)
      | some f ↦ (
        some f,
        record ctx {
          seq = u16 (ctx.seq + 1);
          pending_update_id = p.current_update_id;
          pending_dataset_version_from = p.dataset_version_from;
          pending_dataset_version_to = p.dataset_version_to;
          pending_remove_count = p.remove_count;
          pending_add_count = p.add_count;
          pending_payload_size = p.update_payload_size;
          pending_payload_crc16 = p.update_payload_crc16;
          state = wait_update;
          retries = 0;
        },
      )
    ]

unfoldable pub receiver_on_update_timeout : ReceiverCtx → ℕ → Option (List ℕ) × ReceiverCtx
receiver_on_update_timeout ctx out_cap =
    let counted = record ctx { retries = u8 (ctx.retries + 1) } in
    let req : UpdateRequestPayload = record {
      requested_update_id = ctx.pending_update_id;
      receiver_dataset_ver = ctx.local_dataset_version;
    } in
    if not (is_wait_update ctx.state)
    then (none, ctx)
    else if leb ctx.max_retries ctx.retries
    then (none, record ctx { state = scan })
    else if ltb out_cap 18
    then (none, counted)
    else elim (encode_update_request out_cap ctx.receiver_id ctx.expected_sender_id ctx.seq req) [
      | none ↦ (none, counted)
      | some f ↦ (some f, record counted { seq = u16 (ctx.seq + 1) })
    ]

-- Is this the update that the context holds as the last one applied?
unfoldable pub is_last_applied : ReceiverCtx → CommonHeader → UpdateHeader → ℕ → Bool
is_last_applied ctx hdr up payload_crc =
    hdr.sender_id == ctx.last_applied_sender_id
    && (hdr.receiver_id == ctx.last_applied_receiver_id
        && (up.dataset_version_from == ctx.last_applied_dataset_version_from
            && (up.dataset_version_to == ctx.last_applied_dataset_version_to
                && (up.remove_count == ctx.last_applied_remove_count
                    && (up.add_count == ctx.last_applied_add_count
                        && (up.reserved0 == 0 && payload_crc == ctx.last_applied_payload_crc16))))))

-- The tests after the CRC of the payload is computed: `err_none` is the return value 1.
unfoldable pub check_update : ReceiverCtx → CommonHeader → UpdateHeader → ℕ → ℕ
check_update ctx hdr up payload_crc =
    if up.update_id == ctx.last_applied_update_id
    then if is_last_applied ctx hdr up payload_crc then err_none else err_update_id_unknown
    else if not (is_wait_update ctx.state)
    then err_update_id_unknown
    else if not (up.update_id == ctx.pending_update_id)
    then err_update_id_unknown
    else if not (up.dataset_version_from == ctx.local_dataset_version)
        || not (up.dataset_version_from == ctx.pending_dataset_version_from)
        || not (up.dataset_version_to == ctx.pending_dataset_version_to)
        || leb up.dataset_version_to up.dataset_version_from
    then err_dataset_version_mismatch
    else if not (up.remove_count == ctx.pending_remove_count)
        || not (up.add_count == ctx.pending_add_count)
    then err_update_id_unknown
    else if not (u16 (update_payload_size up.remove_count up.add_count) == ctx.pending_payload_size)
    then err_internal
    else if not (ctx.pending_payload_crc16 == 0) && not (payload_crc == ctx.pending_payload_crc16)
    then err_crc_fail
    else err_none

-- The part from the validation of the numbers on: the error, `err_none` for the return value 1.
unfoldable pub check_numbers : ReceiverCtx → CommonHeader → UpdateHeader → Numbers → Numbers → ℕ
check_numbers ctx hdr up removes adds = elim (validate_update_numbers up removes adds) [
  | some error ↦ error
  | none ↦ elim (compute_update_payload_crc16 up removes adds) [
    | none ↦ err_internal
    | some crc ↦ check_update ctx hdr up crc
  ]
]

-- The part from the decoding of the numbers on.
unfoldable pub validate_decoded :
    ReceiverCtx
    → CommonHeader
    → UpdateHeader
    → List ℕ
    → List ℕ
    → Numbers
    → Numbers
    → ValidatedUpdate
validate_decoded ctx hdr up rp ap out_remove out_add =
    let rc = up.remove_count in
    let ac = up.add_count in
    let d = decode_update_numbers up rp rc ap ac out_remove out_add in
    let outputs : ℕ → ValidatedUpdate = λ err. record {
      status = err == err_none;
      header = if err == err_none then up else clear_update;
      remove_numbers = d.remove_numbers;
      add_numbers = d.add_numbers;
      required_remove_count = rc;
      required_add_count = ac;
      error = err;
    } in
    if not d.status
    then outputs (
        if d.required_remove_count == rc
          && (d.required_add_count == ac
              && (is_null out_remove
                  || is_null out_add
                  || too_small rc out_remove
                  || too_small ac out_add))
        then err_output_too_small
        else err_internal)
    else outputs (check_numbers ctx hdr up d.remove_numbers d.add_numbers)

unfoldable pub receiver_validate_update_data :
    ReceiverCtx → List ℕ → Numbers → Numbers → ValidatedUpdate
receiver_validate_update_data ctx b out_remove out_add =
    let (accepted, hdr, err) = classify_frame b ctx.receiver_id msg_update_data in
    let (decoded, hdr', up, pointers) = decode_update_data_header b hdr in
    let failed : ℕ → ValidatedUpdate = λ error. record {
      status = false;
      header = clear_update;
      remove_numbers = out_remove;
      add_numbers = out_add;
      required_remove_count = 0;
      required_add_count = 0;
      error = error;
    } in
    if not accepted
    then failed err
    else if not (ctx.expected_sender_id == 0) && not (hdr.sender_id == ctx.expected_sender_id)
    then failed err_invalid_receiver_id
    else if not decoded
    then failed err_internal
    else elim pointers [
      | none ↦ failed err_internal
      | some (rp, ap) ↦
          if not (26 + 4 * up.remove_count + 4 * up.add_count == length b)
          then failed err_internal
          else validate_decoded ctx hdr' up rp ap out_remove out_add
    ]

unfoldable pub receiver_encode_ack : ReceiverCtx → ℕ → ℕ → ℕ → Option (List ℕ) × ReceiverCtx
receiver_encode_ack ctx sender_id ack_update_id out_cap =
    let p : AckPayload = record {
      ack_update_id = ack_update_id;
      receiver_dataset_ver = ctx.local_dataset_version;
    } in
    if ltb out_cap 18
    then (none, ctx)
    else elim (encode_ack out_cap ctx.receiver_id sender_id ctx.seq p) [
      | none ↦ (none, ctx)
      | some f ↦ (some f, record ctx { seq = u16 (ctx.seq + 1) })
    ]

unfoldable pub receiver_encode_nack :
    ReceiverCtx → ℕ → ℕ → ℕ → ℕ → ℕ → Option (List ℕ) × ReceiverCtx
receiver_encode_nack ctx sender_id nack_update_id error_code detail out_cap =
    let p : NackPayload = record {
      nack_update_id = nack_update_id;
      error_code = error_code;
      detail = detail;
    } in
    if ltb out_cap 18
    then (none, ctx)
    else elim (encode_nack out_cap ctx.receiver_id sender_id ctx.seq p) [
      | none ↦ (none, ctx)
      | some f ↦ (some f, record ctx { seq = u16 (ctx.seq + 1) })
    ]
