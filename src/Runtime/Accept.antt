-- ===== src/Runtime/Accept.antt =====
-- What the batch receiver has checked of an update that it accepts.
use num8_lup.Base.{ℕ, ◌<◌, ◌≡◌, ◌≢◌, ◌⊎◌, refl, arith, true, Option, none, some, List}
use num8_lup.Op.{CommonHeader}
use num8_lup.Batch.{
  Numbers, UpdateHeader, validate_update_numbers, compute_update_payload_crc16, classify_frame,
  decode_update_data_header, msg_update_data,
}
use num8_lup.Batch.Validity.{AreValid, validate_update_numbers_iff, validate_update_numbers_nonzero}
use num8_lup.Runtime.Types.{ReceiverCtx, wait_update}
use num8_lup.Runtime.Receiver.{
  is_last_applied, check_update, check_numbers, validate_decoded, receiver_validate_update_data,
}

-- An update is the last one applied, sent again, or the one that was asked for.
abbrev pub IsRepeat : ReceiverCtx → UpdateHeader → ℕ → Type 0
IsRepeat ctx up crc =
    (up.update_id ≡ ctx.last_applied_update_id)
    × (up.dataset_version_from ≡ ctx.last_applied_dataset_version_from)
    × (up.dataset_version_to ≡ ctx.last_applied_dataset_version_to)
    × (crc ≡ ctx.last_applied_payload_crc16)

abbrev pub IsAwaited : ReceiverCtx → UpdateHeader → ℕ → Type 0
IsAwaited ctx up crc =
    (ctx.state ≡ wait_update)
    × (up.update_id ≢ ctx.last_applied_update_id)
    × (up.update_id ≡ ctx.pending_update_id)
    × (up.dataset_version_from ≡ ctx.local_dataset_version)
    × (up.dataset_version_to ≡ ctx.pending_dataset_version_to)
    × (up.dataset_version_from < up.dataset_version_to)
    × (up.remove_count ≡ ctx.pending_remove_count)
    × (up.add_count ≡ ctx.pending_add_count)
    × ((ctx.pending_payload_crc16 ≡ 0) ⊎ (crc ≡ ctx.pending_payload_crc16))

abbrev pub IsExpected : ReceiverCtx → UpdateHeader → ℕ → Type 0
IsExpected ctx up crc = IsRepeat ctx up crc ⊎ IsAwaited ctx up crc

check_update_inv :
    (ctx : ReceiverCtx) (hdr : CommonHeader) (up : UpdateHeader) (crc : ℕ)
    → check_update ctx hdr up crc ≡ 0
    → IsExpected ctx up crc
unfolding check_update is_last_applied
check_update_inv ctx hdr up crc e = ground arith

-- The numbers are valid, and the CRC over them is the expected one.
abbrev pub IsAccepted : ReceiverCtx → UpdateHeader → Numbers → Numbers → Type 0
IsAccepted ctx up removes adds =
    AreValid up removes adds
    × ((crc : ℕ) × (compute_update_payload_crc16 up removes adds ≡ some crc)
        × IsExpected ctx up crc)

check_numbers_go :
    (ctx : ReceiverCtx) (hdr : CommonHeader) (up : UpdateHeader) (removes adds : Numbers)
    → (validated computed : Option ℕ) → validate_update_numbers up removes adds ≡ validated
    → compute_update_payload_crc16 up removes adds ≡ computed
    → check_numbers ctx hdr up removes adds ≡ 0
    → IsAccepted ctx up removes adds
unfolding check_numbers
check_numbers_go ctx hdr up removes adds (some error) c v w e =
    absurd (ground (arith, v, e, validate_update_numbers_nonzero up removes adds))
check_numbers_go ctx hdr up removes adds none none v w e = absurd (ground (arith, v, w, e))
check_numbers_go ctx hdr up removes adds none (some crc) v w e = (
  (validate_update_numbers_iff up removes adds).0 v,
  (crc, w, check_update_inv ctx hdr up crc (ground (arith, v, w, e))),
)

validate_decoded_inv :
    (ctx : ReceiverCtx) (hdr : CommonHeader) (up : UpdateHeader) (rp ap : List ℕ)
    (removes adds : Numbers)
    → let v = validate_decoded ctx hdr up rp ap removes adds in
      v.status ≡ true
      → (v.error ≡ 0)
        × (v.header ≡ up)
        × (check_numbers ctx hdr up v.remove_numbers v.add_numbers ≡ 0)
unfolding validate_decoded
validate_decoded_inv ctx hdr up rp ap removes adds e = ground arith

module _ (ctx : ReceiverCtx) (b : List ℕ) (out_remove out_add : Numbers) where
  accepted_inv :
      (pointers : Option (List ℕ × List ℕ))
      → let c = classify_frame b ctx.receiver_id msg_update_data in
        let d = decode_update_data_header b c.1 in
        let v = receiver_validate_update_data ctx b out_remove out_add in
        d.3 ≡ pointers
        → v.status ≡ true
        → (v.error ≡ 0)
          × (c.0 ≡ true)
          × (check_numbers ctx d.1 v.header v.remove_numbers v.add_numbers ≡ 0)
  unfolding receiver_validate_update_data
  accepted_inv none w e = absurd (ground (arith, w, e))
  accepted_inv (some (rp, ap)) w e =
      let c = classify_frame b ctx.receiver_id msg_update_data in
      let d = decode_update_data_header b c.1 in
      ground (arith, w, e, validate_decoded_inv ctx d.1 d.2 rp ap out_remove out_add)

  -- If `receiver_validate_update_data` returns 1, then its error code is 0, the frame was
  -- classified as an update for this receiver, the numbers it gives are valid and have a CRC, and
  -- the update is the last one applied (the same id, versions and CRC) or a new one that the
  -- receiver waits for: with the pending id, from the local version to the pending version, with
  -- the pending counts and the pending CRC unless that is 0.
  pub receiver_validate_update_data-IsAccepted :
      let v = receiver_validate_update_data ctx b out_remove out_add in
      v.status ≡ true
      → (v.error ≡ 0)
        × ((classify_frame b ctx.receiver_id msg_update_data).0 ≡ true)
        × IsAccepted ctx v.header v.remove_numbers v.add_numbers
  receiver_validate_update_data-IsAccepted e =
      let c = classify_frame b ctx.receiver_id msg_update_data in
      let d = decode_update_data_header b c.1 in
      let v = receiver_validate_update_data ctx b out_remove out_add in
      let a = accepted_inv d.3 refl e in
      (a.0, a.1, check_numbers_go ctx d.1 v.header v.remove_numbers v.add_numbers _ _ refl refl a.2)
