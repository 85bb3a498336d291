-- ===== src/Exchange/Offer.antt =====
-- The steps of an exchange up to UPDATE_DATA, between a sender with an update on offer and a receiver
-- that holds the version the update starts from.
use num8_lup.Base.{
  ℕ, ◌+◌, ◌*◌, ◌^◌, ◌≤◌, ◌<◌, ◌≡◌, ◌≢◌, ◌⊎◌, inl, inr, sym, refl, subst, arith, true, some, List,
  take,
}
use num8_lup.Base.Words.{u16}
use num8_lup.Codec.Detect.{crc16-IsU16}
use num8_lup.Op.Shape.{frame, header_of}
use num8_lup.Op.Payload.{two_words}
use num8_lup.Batch.{
  array, Numbers, UpdateHeader, UpdateRequestPayload, encode_beacon, decode_beacon,
  decode_update_request, classify_frame, compute_update_payload_crc16, any_receiver_id,
  update_bytes, msg_beacon, msg_update_request,
}
use num8_lup.Batch.Payload.{beacon_bytes}
use num8_lup.Batch.Shape.{classify_frame-frame}
use num8_lup.Batch.Words.{IsWord, compute_update_payload_crc16_lem}
use num8_lup.Batch.Inverse.{IsBeacon, IsUpdate}
use num8_lup.Batch.RoundTrip.{
  decode_beacon-encode_beacon, decode_update_request-encode_update_request,
}
use num8_lup.Runtime.{SenderCtx, ReceiverCtx, idle, wait_ack, wait_update}
use num8_lup.Runtime.{
  beacon_of, sender_build_beacon, sender_emit_update, answer_request, sender_handle_update_request,
}
use num8_lup.Runtime.{receiver_handle_beacon}
use num8_lup.Runtime.Steps.{IsOffer}
use num8_lup.Exchange.Frames.{
  data_frame, encode_beacon_lem, encode_update_request_lem, encode_update_data_lem,
}

-- A sender with an update on offer, its fields in the range of their C types.
pub record IsSending (s : SenderCtx) : Type 0 where
  pub busy : s.state ≢ idle
  pub id : s.sender_id ≢ 0
  pub id_small : s.sender_id < 2 ^ 16
  pub seq_small : s.seq < 2 ^ 16
  pub update_id : s.update_hdr.update_id ≢ 0
  pub typed : IsUpdate s.update_hdr s.remove_numbers s.add_numbers
  pub offer : IsOffer s.update_hdr s.remove_numbers s.add_numbers s.update_payload_crc16

-- A receiver that listens to that sender and holds the version the update starts from.
pub record IsListening (s : SenderCtx) (r : ReceiverCtx) : Type 0 where
  pub id : r.receiver_id ≢ 0
  pub id_small : r.receiver_id < 2 ^ 16
  pub seq_small : r.seq < 2 ^ 16
  pub listens : (r.expected_sender_id ≡ 0) ⊎ (r.expected_sender_id ≡ s.sender_id)
  pub version : r.local_dataset_version ≡ s.update_hdr.dataset_version_from

crc_small :
    (hdr : UpdateHeader) (removes adds : Numbers) (crc : ℕ)
    → compute_update_payload_crc16 hdr removes adds ≡ some crc
    → crc < 2 ^ 16
crc_small hdr removes adds crc e = ground (
  arith,
  e,
  compute_update_payload_crc16_lem hdr removes adds,
  crc16-IsU16
      (update_bytes hdr (take hdr.remove_count (array removes)) (take hdr.add_count (array adds))),
)

abbrev pub beacon_frame : SenderCtx → List ℕ
beacon_frame s = frame msg_beacon s.sender_id 0 s.seq (beacon_bytes (beacon_of s))

abbrev pub request_frame : SenderCtx → ReceiverCtx → List ℕ
request_frame s r =
    frame msg_update_request r.receiver_id s.sender_id r.seq
      (two_words s.update_hdr.update_id r.local_dataset_version)

-- The receiver after the beacon.
abbrev pub asked : SenderCtx → ReceiverCtx → ReceiverCtx
asked s r =
    let hdr = s.update_hdr in
    record r {
      seq = u16 (r.seq + 1);
      pending_update_id = hdr.update_id;
      pending_dataset_version_from = hdr.dataset_version_from;
      pending_dataset_version_to = hdr.dataset_version_to;
      pending_remove_count = hdr.remove_count;
      pending_add_count = hdr.add_count;
      pending_payload_size = u16 (16 + 4 * hdr.remove_count + 4 * hdr.add_count);
      pending_payload_crc16 = s.update_payload_crc16;
      state = wait_update;
      retries = 0;
    }

module _ (s : SenderCtx) (ok : IsSending s) where
  beacon_of-IsBeacon : IsBeacon (beacon_of s)
  unfolding beacon_of
  beacon_of-IsBeacon = (
    ok.typed.id,
    ok.typed.from,
    ok.typed.to,
    ok.typed.remove_small,
    ok.typed.add_small,
    crc_small s.update_hdr s.remove_numbers s.add_numbers s.update_payload_crc16 ok.offer.crc,
  )

  beacon_encodes :
      (cap : ℕ)
      → 28 ≤ cap
      → encode_beacon cap s.sender_id s.seq (beacon_of s) ≡ some (beacon_frame s)
  unfolding beacon_of
  beacon_encodes cap c =
      let hr = ok.typed.remove_small in
      let ha = ok.typed.add_small in
      encode_beacon_lem cap s.sender_id s.seq (beacon_of s) c ok.id ok.update_id ok.offer.forward hr
        ha (omega (arith, hr, ha))

  pub sender_build_beacon_lem :
      (cap : ℕ)
      → 28 ≤ cap
      → sender_build_beacon s cap ≡ (some (beacon_frame s), record s { seq = u16 (s.seq + 1) })
  unfolding sender_build_beacon
  sender_build_beacon_lem cap c = ground (arith, beacon_encodes cap c)

  module _ (r : ReceiverCtx) (near : IsListening s r) (cap : ℕ) where
    beacon_decodes :
        decode_beacon (beacon_frame s) (header_of msg_beacon s.sender_id 0 s.seq)
        ≡ (true, header_of msg_beacon s.sender_id 0 s.seq, beacon_of s)
    beacon_decodes =
        decode_beacon-encode_beacon 28 s.sender_id s.seq (header_of msg_beacon s.sender_id 0 s.seq)
          (beacon_of s) (ok.id_small, omega arith, ok.seq_small) beacon_of-IsBeacon
          (beacon_encodes 28 (omega arith))

    beacon_heard :
        classify_frame (beacon_frame s) any_receiver_id msg_beacon
        ≡ (true, header_of msg_beacon s.sender_id 0 s.seq, 0)
    beacon_heard =
        classify_frame-frame msg_beacon s.sender_id 0 s.seq (beacon_bytes (beacon_of s)) ok.id_small
          (omega arith) ok.seq_small any_receiver_id msg_beacon (omega arith) (omega arith)
          (inr refl) (inl refl)

    pub receiver_handle_beacon_lem :
        18 ≤ cap
        → receiver_handle_beacon r (beacon_frame s) cap ≡ (some (request_frame s r), asked s r)
    unfolding receiver_handle_beacon beacon_of
    receiver_handle_beacon_lem c =
        let p : UpdateRequestPayload = record {
          requested_update_id = s.update_hdr.update_id;
          receiver_dataset_ver = r.local_dataset_version;
        } in
        ground (
          arith,
          ok.offer.forward,
          near.listens,
          near.version,
          beacon_heard,
          beacon_decodes,
          encode_update_request_lem cap r.receiver_id r.seq s.sender_id p c near.id ok.id
              ok.update_id,
        )

  module _ (r : ReceiverCtx) (near : IsListening s r) (cap : ℕ) where
    -- The sender after it has sent the update.
    abbrev pub answered_sender : SenderCtx
    answered_sender = record s {
      seq = u16 (s.seq + 1);
      target_receiver_id = r.receiver_id;
      state = wait_ack;
      retries = 0;
    }

    data_sent :
        26 + 4 * s.update_hdr.remove_count + 4 * s.update_hdr.add_count ≤ cap
        → answer_request s r.receiver_id cap ≡ (
          some (
              data_frame s.sender_id r.receiver_id s.seq s.update_hdr s.remove_numbers
                s.add_numbers),
          answered_sender,
        )
    unfolding answer_request sender_emit_update
    data_sent c =
        let hr = ok.typed.remove_small in
        let ha = ok.typed.add_small in
        let e =
          encode_update_data_lem cap s.sender_id s.seq r.receiver_id s.update_hdr s.remove_numbers
            s.add_numbers c ok.id near.id ok.update_id ok.offer.forward ok.offer.reserved hr ha
            ok.offer.numbers.0 ok.offer.numbers.1 in
        ground (arith, c, hr, ha, e)

    request_decodes :
        let h = header_of msg_update_request r.receiver_id s.sender_id r.seq in
        decode_update_request (request_frame s r) h ≡ (
          true,
          h,
          record {
            requested_update_id = s.update_hdr.update_id;
            receiver_dataset_ver = r.local_dataset_version;
          },
        )
    request_decodes =
        let h = header_of msg_update_request r.receiver_id s.sender_id r.seq in
        let p : UpdateRequestPayload = record {
          requested_update_id = s.update_hdr.update_id;
          receiver_dataset_ver = r.local_dataset_version;
        } in
        decode_update_request-encode_update_request 18 r.receiver_id r.seq h s.sender_id
          (near.id_small, ok.id_small, near.seq_small) p ok.typed.id
          (subst IsWord (sym near.version) ok.typed.from)
          (encode_update_request_lem 18 r.receiver_id r.seq s.sender_id p (omega arith) near.id
            ok.id ok.update_id)

    request_heard :
        classify_frame (request_frame s r) s.sender_id msg_update_request
        ≡ (true, header_of msg_update_request r.receiver_id s.sender_id r.seq, 0)
    request_heard =
        classify_frame-frame msg_update_request r.receiver_id s.sender_id r.seq
          (two_words s.update_hdr.update_id r.local_dataset_version) near.id_small ok.id_small
          near.seq_small s.sender_id msg_update_request (omega arith) (omega arith) (inr refl)
          (inr (refl, omega arith))

    pub sender_handle_update_request_lem :
        26 + 4 * s.update_hdr.remove_count + 4 * s.update_hdr.add_count ≤ cap
        → sender_handle_update_request s (request_frame s r) cap ≡ (
          some (
              data_frame s.sender_id r.receiver_id s.seq s.update_hdr s.remove_numbers
                s.add_numbers),
          answered_sender,
        )
    unfolding sender_handle_update_request
    sender_handle_update_request_lem c =
        ground (arith, ok.busy, near.version, request_decodes, request_heard, data_sent c)
