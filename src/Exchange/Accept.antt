-- ===== src/Exchange/Accept.antt =====
-- The receiver of src/num8lora_runtime.c, and the update that it asked for.
use num8_lup.Base.{
  ℕ, ◌+◌, ◌*◌, ◌≤◌, ◌≡◌, ◌≢◌, ◌⊎◌, inr, sym, refl, subst, arith, true, false, some, List, ◌++◌,
  length, take, take_left, drop, replicate,
}
use num8_lup.Base.Words.{u16}
use num8_lup.Op.{CommonHeader, AreIds}
use num8_lup.Op.Shape.{header_of}
use num8_lup.Batch.{
  array, missing, Numbers, UpdateHeader, compute_update_payload_crc16, read_numbers,
  decode_update_numbers, classify_frame, update_bytes, msg_update_data,
}
use num8_lup.Batch.Shape.{classify_frame-frame}
use num8_lup.Batch.Validity.{AreValid, IsBatch, validate_update_numbers_iff}
use num8_lup.Batch.Inverse.{IsUpdate, length-take}
use num8_lup.Batch.RoundTrip.{decode_update_data-encode_update_data}
use num8_lup.Runtime.{
  ReceiverCtx, wait_update, check_update, check_numbers, validate_decoded,
  receiver_validate_update_data, update_payload_size,
}
use num8_lup.Runtime.Steps.{IsOffer}
use num8_lup.Exchange.Frames.{data_frame, encode_update_data_lem}

module _ (hdr : UpdateHeader) (removes adds removes' adds' : Numbers) where
  -- Arrays that start with the same numbers.
  abbrev pub Agree : Type 0
  Agree =
      (missing hdr.remove_count removes' ≡ false)
      × (missing hdr.add_count adds' ≡ false)
      × (take hdr.remove_count (array removes') ≡ take hdr.remove_count (array removes))
      × (take hdr.add_count (array adds') ≡ take hdr.add_count (array adds))

  pub agree-AreValid : Agree → AreValid hdr removes adds → AreValid hdr removes' adds'
  agree-AreValid a v =
      (a.0, a.1, subst IsBatch (sym a.2) v.2, subst IsBatch (sym a.3) v.3, rw (a.2, a.3) v.4)

  agree-compute :
      Agree
      → AreValid hdr removes adds
      → compute_update_payload_crc16 hdr removes' adds'
        ≡ compute_update_payload_crc16 hdr removes adds
  unfolding compute_update_payload_crc16
  agree-compute a v = rw (a.0, a.1, a.2, a.3, v.0, v.1) refl

-- An output array that starts with the first numbers of another one, and is zero after them.
abbrev pub filled_with : ℕ → Numbers → List ℕ → Numbers
filled_with count numbers out =
    let xs = take count (array numbers) in some (xs ++ drop (length xs) (replicate (length out) 0))

-- The receiver waits for this update.
pub record IsAwaiting (r : ReceiverCtx) (hdr : UpdateHeader) (payload_crc : ℕ) : Type 0 where
  pub state : r.state ≡ wait_update
  pub fresh : hdr.update_id ≢ r.last_applied_update_id
  pub id : hdr.update_id ≡ r.pending_update_id
  pub local : hdr.dataset_version_from ≡ r.local_dataset_version
  pub from : hdr.dataset_version_from ≡ r.pending_dataset_version_from
  pub to : hdr.dataset_version_to ≡ r.pending_dataset_version_to
  pub remove_count : hdr.remove_count ≡ r.pending_remove_count
  pub add_count : hdr.add_count ≡ r.pending_add_count
  pub size : u16 (16 + 4 * hdr.remove_count + 4 * hdr.add_count) ≡ r.pending_payload_size
  pub crc : payload_crc ≡ r.pending_payload_crc16

module _ (r : ReceiverCtx) (hdr : UpdateHeader) (removes adds : Numbers) (crc : ℕ)
    (typed : IsUpdate hdr removes adds) (offer : IsOffer hdr removes adds crc)
    (waits : IsAwaiting r hdr crc) where
  update_checked : (h : CommonHeader) → check_update r h hdr crc ≡ 0
  unfolding check_update update_payload_size
  update_checked h = ground (
    arith, offer.forward, typed.remove_small, typed.add_small, waits.state, waits.fresh, waits.id,
    waits.local, waits.from, waits.to, waits.remove_count, waits.add_count, waits.size, waits.crc,
  )

  numbers_checked :
      (h : CommonHeader) (removes' adds' : Numbers)
      → Agree hdr removes adds removes' adds'
      → check_numbers r h hdr removes' adds' ≡ 0
  unfolding check_numbers
  numbers_checked h removes' adds' a =
      let valid = agree-AreValid hdr removes adds removes' adds' a offer.numbers in
      let same = agree-compute hdr removes adds removes' adds' a offer.numbers in
      ground (
        arith,
        (validate_update_numbers_iff hdr removes' adds').1 valid,
        same,
        offer.crc,
        update_checked h,
      )

  -- The output arrays start with the numbers of the update.
  pub filled_with-Agree :
      (out_remove out_add : List ℕ)
      → Agree hdr removes adds
          (filled_with hdr.remove_count removes out_remove)
          (filled_with hdr.add_count adds out_add)
  filled_with-Agree out_remove out_add = (
    refl,
    refl,
    take_left _ _ _ (sym (length-take hdr.remove_count (array removes) typed.removes_there)),
    take_left _ _ _ (sym (length-take hdr.add_count (array adds) typed.adds_there)),
  )

  module _ (rp ap out_remove out_add : List ℕ)
      (x : read_numbers hdr.remove_count rp ≡ take hdr.remove_count (array removes))
      (y : read_numbers hdr.add_count ap ≡ take hdr.add_count (array adds))
      (room_r : hdr.remove_count ≤ length out_remove)
      (room_a : hdr.add_count ≤ length out_add) where
    decoded :
        let d =
          decode_update_numbers hdr rp hdr.remove_count ap hdr.add_count
            (some out_remove)
            (some out_add) in
        (d.status ≡ true)
        × (d.remove_numbers ≡ filled_with hdr.remove_count removes out_remove)
        × (d.add_numbers ≡ filled_with hdr.add_count adds out_add)
    unfolding decode_update_numbers
    decoded = ground (arith, x, y, room_r, room_a)

    validated :
        (h : CommonHeader)
        → let v = validate_decoded r h hdr rp ap (some out_remove) (some out_add) in
          (v.status ≡ true)
          × (v.header ≡ hdr)
          × (v.error ≡ 0)
          × (v.remove_numbers ≡ filled_with hdr.remove_count removes out_remove)
          × (v.add_numbers ≡ filled_with hdr.add_count adds out_add)
    unfolding validate_decoded
    validated h = ground (
      arith,
      decoded,
      numbers_checked h (filled_with hdr.remove_count removes out_remove)
          (filled_with hdr.add_count adds out_add) (filled_with-Agree out_remove out_add),
    )

  module _ (s q : ℕ) (ids : AreIds s r.receiver_id q)
      (used : (s ≢ 0) × (r.receiver_id ≢ 0) × (hdr.update_id ≢ 0))
      (listens : (r.expected_sender_id ≡ 0) ⊎ (r.expected_sender_id ≡ s))
      (out_remove out_add : List ℕ) (room_r : hdr.remove_count ≤ length out_remove)
      (room_a : hdr.add_count ≤ length out_add) where
    data_heard :
        classify_frame (data_frame s r.receiver_id q hdr removes adds) r.receiver_id msg_update_data
        ≡ (true, header_of msg_update_data s r.receiver_id q, 0)
    data_heard =
        classify_frame-frame msg_update_data s r.receiver_id q
          (update_bytes hdr (take hdr.remove_count (array removes))
            (take hdr.add_count (array adds)))
          ids.0 ids.1 ids.2 r.receiver_id msg_update_data (omega arith) (omega arith) (inr refl)
          (inr (refl, omega arith))

    -- The update that the receiver waits for is accepted, with its numbers in the output arrays.
    pub receiver_validate_update_data_lem :
        let v =
          receiver_validate_update_data r
            (data_frame s r.receiver_id q hdr removes adds)
            (some out_remove)
            (some out_add) in
        (v.status ≡ true)
        × (v.header ≡ hdr)
        × (v.error ≡ 0)
        × (v.remove_numbers ≡ filled_with hdr.remove_count removes out_remove)
        × (v.add_numbers ≡ filled_with hdr.add_count adds out_add)
    unfolding receiver_validate_update_data
    receiver_validate_update_data_lem =
        let h = header_of msg_update_data s r.receiver_id q in
        let size = 26 + 4 * hdr.remove_count + 4 * hdr.add_count in
        let e =
          encode_update_data_lem size s q r.receiver_id hdr removes adds (omega arith) used.0 used.1
            used.2 offer.forward offer.reserved typed.remove_small typed.add_small offer.numbers.0
            offer.numbers.1 in
        let d =
          decode_update_data-encode_update_data size s q h r.receiver_id ids hdr removes adds typed
            e in
        ground (
          arith,
          data_heard,
          listens,
          d.2,
          d.5,
          validated d.0 d.1 out_remove out_add d.3 d.4 room_r room_a h,
        )
