-- ===== src/Bridge/Defs.antt =====
-- The operations of src/num8lora_num8_bridge.c.
use num8_lup.Base.{
  ℕ, ◌+◌, Bool, true, false, not, Option, none, some, List, [], ◌∷◌, ltb, leb, ◌==◌, if◌then◌else◌,
  take, replicate,
}
use num8_lup.Base.Words.{u16}
use num8_lup.Op.{op_add, op_remove}
use num8_lup.Batch.{
  Numbers, UpdateHeader, AckPayload, array, validate_update_numbers, decode_common_header,
  encode_ack, err_none, err_internal, err_dataset_version_mismatch, err_apply_failed,
}
use num8_lup.Runtime.{
  ReceiverCtx, scan, receiver_validate_update_data, receiver_encode_ack, receiver_encode_nack,
}
use num8_lup.Bridge.Engine.{
  Num8Status, ok, added, already_exists, removed, not_found, other, Engine,
}

abbrev pub is_removed : Num8Status → Bool
is_removed removed = true
is_removed not_found = true
is_removed ok = false
is_removed added = false
is_removed already_exists = false
is_removed (other code) = false

abbrev pub is_added : Num8Status → Bool
is_added added = true
is_added already_exists = true
is_added ok = false
is_added removed = false
is_added not_found = false
is_added (other code) = false

abbrev pub is_ok : Num8Status → Bool
is_ok ok = true
is_ok added = false
is_ok already_exists = false
is_ok removed = false
is_ok not_found = false
is_ok (other code) = false

-- The outputs of `num8lora_apply_update_to_num8`, and the engine afterwards.
pub record Applied (State : Type 0) : Type 0 where
  pub status : Bool
  pub new_dataset_version : ℕ
  pub new_last_applied_update_id : ℕ
  pub error : ℕ
  pub engine : State

module _ (engine : Engine) where
  -- The loops, which stop at the first call that fails.
  unfoldable pub remove_all : engine.State → List ℕ → Bool × engine.State
  remove_all e [] = (true, e)
  remove_all e (x ∷ xs) =
      let (e', st) = engine.remove e x in
      let rest = remove_all e' xs in if not (is_removed st) then (false, e') else rest

  unfoldable pub add_all : engine.State → List ℕ → Bool × engine.State
  add_all e [] = (true, e)
  add_all e (x ∷ xs) =
      let (e', st) = engine.add e x in
      let rest = add_all e' xs in if not (is_added st) then (false, e') else rest

  -- The calls on the engine: both loops, then the flush.
  unfoldable pub apply_numbers : engine.State → List ℕ → List ℕ → Bool × engine.State
  apply_numbers e removes adds =
      let (removed_all, e1) = remove_all e removes in
      let (added_all, e2) = add_all e1 adds in
      let (e3, st) = engine.flush e2 in
      if not removed_all
      then (false, e1)
      else if not added_all
      then (false, e2)
      else if not (is_ok st)
      then (false, e3)
      else (true, e3)

  unfoldable pub apply_update_to_num8 :
      engine.State → ℕ → ℕ → UpdateHeader → Numbers → Numbers → Applied engine.State
  apply_update_to_num8 e local last hdr remove_numbers add_numbers =
      let failed : ℕ → engine.State → Applied engine.State = λ err e'. record {
        status = false;
        new_dataset_version = 0;
        new_last_applied_update_id = 0;
        error = err;
        engine = e';
      } in
      let done : ℕ → ℕ → engine.State → Applied engine.State = λ version id e'. record {
        status = true;
        new_dataset_version = version;
        new_last_applied_update_id = id;
        error = err_none;
        engine = e';
      } in
      let removes = take hdr.remove_count (array remove_numbers) in
      let adds = take hdr.add_count (array add_numbers) in
      let (applied, e') = apply_numbers e removes adds in
      if not (hdr.dataset_version_from == local)
      then failed err_dataset_version_mismatch e
      else if leb hdr.dataset_version_to hdr.dataset_version_from
      then failed err_dataset_version_mismatch e
      else if hdr.update_id == last
      then done local last e
      else elim (validate_update_numbers hdr remove_numbers add_numbers) [
        | some error ↦ failed error e
        | none ↦
            if not applied
            then failed err_apply_failed e'
            else done hdr.dataset_version_to hdr.update_id e'
      ]

  -- The receiver once an update is applied and its ACK is written.
  unfoldable pub applied_ctx : ReceiverCtx → ℕ → UpdateHeader → ℕ → ℕ → ReceiverCtx
  applied_ctx ctx sender_id up new_version new_last = record ctx {
    seq = u16 (ctx.seq + 1);
    local_dataset_version = new_version;
    last_applied_update_id = new_last;
    last_applied_sender_id = sender_id;
    last_applied_receiver_id = ctx.receiver_id;
    last_applied_dataset_version_from = up.dataset_version_from;
    last_applied_dataset_version_to = up.dataset_version_to;
    last_applied_remove_count = up.remove_count;
    last_applied_add_count = up.add_count;
    last_applied_payload_size = ctx.pending_payload_size;
    last_applied_payload_crc16 = ctx.pending_payload_crc16;
    state = scan;
  }

  -- The part after a response is written by `receiver_encode_nack` or `receiver_encode_ack`.
  unfoldable pub respond :
      Option (List ℕ) × ReceiverCtx
      → ℕ
      → engine.State
      → Option (List ℕ) × ℕ × ReceiverCtx × engine.State
  respond (none, ctx) error e = (none, err_internal, ctx, e)
  respond (some f, ctx) error e = (some f, error, ctx, e)

  -- The part from the call of `num8lora_apply_update_to_num8` on.
  unfoldable pub apply_received :
      ReceiverCtx
      → engine.State
      → ℕ
      → UpdateHeader
      → Numbers
      → Numbers
      → ℕ
      → Option (List ℕ) × ℕ × ReceiverCtx × engine.State
  apply_received ctx e sender_id up removes adds out_cap =
      let a =
        apply_update_to_num8 e ctx.local_dataset_version ctx.last_applied_update_id up removes
          adds in
      let p : AckPayload = record {
        ack_update_id = up.update_id;
        receiver_dataset_ver = a.new_dataset_version;
      } in
      if not a.status
      then respond (receiver_encode_nack ctx sender_id up.update_id a.error 0 out_cap) a.error
          a.engine
      else elim (encode_ack out_cap ctx.receiver_id sender_id ctx.seq p) [
        | none ↦ (none, err_internal, ctx, a.engine)
        | some f ↦ (
          some f,
          err_none,
          applied_ctx ctx sender_id up a.new_dataset_version a.new_last_applied_update_id,
          a.engine,
        )
      ]

  -- The response, `none` for the return value 0, `*out_error_code`, the context and the engine. The
  -- arrays on the stack are cleared before they are read, so what they hold first does not matter.
  unfoldable pub receiver_apply_update_data_to_num8 :
      ReceiverCtx → engine.State → List ℕ → ℕ → Option (List ℕ) × ℕ × ReceiverCtx × engine.State
  receiver_apply_update_data_to_num8 ctx e b out_cap =
      let failed : ℕ → Option (List ℕ) × ℕ × ReceiverCtx × engine.State =
        λ error. (none, error, ctx, e) in
      let (decoded, hdr) = decode_common_header b in
      let v =
        receiver_validate_update_data ctx b (some (replicate 255 0)) (some (replicate 255 0)) in
      let up = v.header in
      if not decoded
      then failed err_internal
      else if not v.status
      then if ltb out_cap 18
        then failed err_internal
        else respond
            (receiver_encode_nack ctx hdr.sender_id ctx.pending_update_id v.error 0 out_cap) v.error
            e
      else if up.update_id == ctx.last_applied_update_id
      then if ltb out_cap 18
        then failed err_internal
        else respond (receiver_encode_ack ctx hdr.sender_id up.update_id out_cap) err_none e
      else if ltb out_cap 18
      then failed err_internal
      else apply_received ctx e hdr.sender_id up v.remove_numbers v.add_numbers out_cap

  -- `num8lora_receiver_apply_num8` of src/num8lora_receiver.c.
  unfoldable pub receiver_apply_num8 : engine.State → ℕ → ℕ → Bool × engine.State
  receiver_apply_num8 e op_type value =
      let (added_to, added_st) = engine.add e value in
      let (removed_from, removed_st) = engine.remove e value in
      if op_type == op_add
      then (is_added added_st, added_to)
      else if op_type == op_remove
      then (is_removed removed_st, removed_from)
      else (false, e)
