-- ===== src/Exchange/Apply.antt =====
-- The last two steps of an exchange: the receiver applies the update and acknowledges it, and the
-- sender takes the ACK.
use num8_lup.Base.{
  ℕ, ◌≤◌, ◌<◌, ◌≡◌, ◌≢◌, ◌⊎◌, inl, inr, refl, arith, Bool, true, some, List, length, take,
  replicate,
}
use num8_lup.Op.{AreIds}
use num8_lup.Op.Shape.{frame, header_of}
use num8_lup.Op.Payload.{two_words}
use num8_lup.Batch.{
  array, Numbers, UpdateHeader, AckPayload, msg_ack, update_bytes, msg_update_data,
}
use num8_lup.Batch.Shape.{classify_frame-frame, header_ok}
use num8_lup.Batch.Validity.{validate_update_numbers_iff}
use num8_lup.Batch.Words.{IsWord}
use num8_lup.Batch.Inverse.{IsUpdate}
use num8_lup.Batch.RoundTrip.{decode_ack-encode_ack}
use num8_lup.Runtime.{SenderCtx, ReceiverCtx, idle, wait_ack, applied, sender_handle_ack_or_nack}
use num8_lup.Runtime.Steps.{IsOffer}
use num8_lup.Bridge.{
  apply_numbers, apply_update_to_num8, apply_received, applied_ctx,
  receiver_apply_update_data_to_num8,
}
use num8_lup.Bridge.Engine.{Engine}
use num8_lup.Exchange.Frames.{data_frame, encode_ack_lem}
use num8_lup.Exchange.Accept.{
  Agree, agree-AreValid, filled_with, filled_with-Agree, IsAwaiting,
  receiver_validate_update_data_lem,
}

abbrev pub ack_frame : ℕ → ℕ → ℕ → UpdateHeader → List ℕ
ack_frame r s q hdr = frame msg_ack r s q (two_words hdr.update_id hdr.dataset_version_to)

-- The sender takes the ACK of its update.
pub sender_handle_ack_lem :
    (s : SenderCtx) (r q : ℕ)
    → s.state ≡ wait_ack
    → AreIds r s.sender_id q
    → (r ≢ 0) × (s.sender_id ≢ 0) × (s.update_hdr.update_id ≢ 0)
    → IsWord s.update_hdr.update_id
    → IsWord s.update_hdr.dataset_version_to
    → s.update_hdr.dataset_version_from < s.update_hdr.dataset_version_to
    → sender_handle_ack_or_nack s (ack_frame r s.sender_id q s.update_hdr)
      ≡ (true, applied, 0, record s { state = idle; retries = 0 })
unfolding sender_handle_ack_or_nack
sender_handle_ack_lem s r q waits ids used hi hv forward =
    let hdr = s.update_hdr in
    let h = header_of msg_ack r s.sender_id q in
    let p : AckPayload = record {
      ack_update_id = hdr.update_id;
      receiver_dataset_ver = hdr.dataset_version_to;
    } in
    let e =
      encode_ack_lem 18 r q s.sender_id p (omega arith) used.0 used.1 used.2
        (omega (arith, forward)) in
    let d = decode_ack-encode_ack 18 r q h s.sender_id ids p hi hv e in
    let c =
      classify_frame-frame msg_ack r s.sender_id q (two_words hdr.update_id hdr.dataset_version_to)
        ids.0 ids.1 ids.2 s.sender_id 0 (omega arith) (omega arith) (inl refl)
        (inr (refl, omega arith)) in
    ground (arith, waits, c, d)

module _ (engine : Engine) (r : ReceiverCtx) (hdr : UpdateHeader) (removes adds : Numbers) (crc : ℕ)
    (typed : IsUpdate hdr removes adds) (offer : IsOffer hdr removes adds crc)
    (waits : IsAwaiting r hdr crc) (e : engine.State) where
  -- The calls on the engine for the numbers of the update.
  abbrev pub calls : Bool × engine.State
  calls =
      apply_numbers engine e (take hdr.remove_count (array removes))
        (take hdr.add_count (array adds))

  apply_agreed :
      (removes' adds' : Numbers)
      → Agree hdr removes adds removes' adds'
      → calls.0 ≡ true
      → apply_update_to_num8 engine e r.local_dataset_version r.last_applied_update_id hdr removes'
          adds'
        ≡ record {
          status = true;
          new_dataset_version = hdr.dataset_version_to;
          new_last_applied_update_id = hdr.update_id;
          error = 0;
          engine = calls.1;
        }
  unfolding apply_update_to_num8
  apply_agreed removes' adds' a works =
      let valid = agree-AreValid hdr removes adds removes' adds' a offer.numbers in
      let same : apply_numbers engine e (take hdr.remove_count (array removes'))
            (take hdr.add_count (array adds'))
          ≡ calls =
        rw (a.2, a.3) refl in
      ground (
        arith,
        works,
        same,
        offer.forward,
        waits.local,
        waits.fresh,
        (validate_update_numbers_iff hdr removes' adds').1 valid,
      )

  module _ (s q : ℕ) (ids : AreIds s r.receiver_id q)
      (used : (s ≢ 0) × (r.receiver_id ≢ 0) × (hdr.update_id ≢ 0))
      (listens : (r.expected_sender_id ≡ 0) ⊎ (r.expected_sender_id ≡ s)) (size : ℕ)
      (room : 18 ≤ size) where
    received :
        (removes' adds' : Numbers)
        → Agree hdr removes adds removes' adds'
        → calls.0 ≡ true
        → apply_received engine r e s hdr removes' adds' size ≡ (
          some (ack_frame r.receiver_id s r.seq hdr),
          0,
          applied_ctx engine r s hdr hdr.dataset_version_to hdr.update_id,
          calls.1,
        )
    unfolding apply_received
    received removes' adds' a works =
        let p : AckPayload = record {
          ack_update_id = hdr.update_id;
          receiver_dataset_ver = hdr.dataset_version_to;
        } in
        ground (
          arith,
          apply_agreed removes' adds' a works,
          encode_ack_lem size r.receiver_id r.seq s p room used.1 used.0 used.2
              (omega (arith, offer.forward)),
        )

    -- The update that the receiver waits for is applied, and an ACK of it is the response.
    pub receiver_apply_update_data_to_num8_lem :
        calls.0 ≡ true
        → receiver_apply_update_data_to_num8 engine r e
            (data_frame s r.receiver_id q hdr removes adds)
            size
          ≡ (
            some (ack_frame r.receiver_id s r.seq hdr),
            0,
            applied_ctx engine r s hdr hdr.dataset_version_to hdr.update_id,
            calls.1,
          )
    unfolding receiver_apply_update_data_to_num8
    receiver_apply_update_data_to_num8_lem works =
        let out = replicate 255 0 in
        let room_r : hdr.remove_count ≤ length out = omega (arith, typed.remove_small) in
        let room_a : hdr.add_count ≤ length out = omega (arith, typed.add_small) in
        let v =
          receiver_validate_update_data_lem r hdr removes adds crc typed offer waits s q ids used
            listens out out room_r room_a in
        let h =
          header_ok msg_update_data s r.receiver_id q
            (update_bytes hdr (take hdr.remove_count (array removes))
              (take hdr.add_count (array adds)))
            ids.0 ids.1 ids.2 in
        ground (
          arith,
          v,
          h,
          room,
          waits.fresh,
          received (filled_with hdr.remove_count removes out) (filled_with hdr.add_count adds out)
              (filled_with-Agree r hdr removes adds crc typed offer waits out out) works,
        )
