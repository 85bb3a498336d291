-- ===== src/Batch/Bounds.antt =====
-- How long the frames of the batch protocol are.
use num8_lup.Base.{ℕ, ◌+◌, ◌*◌, ◌≤◌, ◌≡◌, ap, arith, some, List, length}
use num8_lup.Op.{clear_common, AreIds}
use num8_lup.Op.Shape.{length-frame}
use num8_lup.Op.Payload.{two_words, length-two_words}
use num8_lup.Batch.Types.{
  BeaconPayload, UpdateRequestPayload, UpdateHeader, AckPayload, NackPayload, Numbers, msg_beacon,
  msg_update_request, msg_ack, msg_nack,
}
use num8_lup.Batch.Encode.{
  encode_beacon, encode_update_request, encode_update_data, encode_ack, encode_nack,
}
use num8_lup.Batch.Payload.{beacon_bytes, length-beacon_bytes, nack_bytes, length-nack_bytes}
use num8_lup.Batch.Inverse.{
  IsBeacon, IsUpdate, encode_beacon_inv, encode_update_request_inv, encode_update_data_inv,
  encode_ack_inv, encode_nack_inv,
}
use num8_lup.Batch.RoundTrip.{decode_update_data-encode_update_data}

module _ (s r q : ℕ) (ids : AreIds s r q) (beacon : BeaconPayload) (request : UpdateRequestPayload)
    (hdr : UpdateHeader) (removes adds : Numbers) (ack : AckPayload) (nack : NackPayload)
    {fb fr fu fa fn : List ℕ} where
  -- What the batch encoders write, each into a buffer of its own size, for ids, a beacon, a header
  -- and numbers in the ranges of their C types, fits in that buffer: a BEACON is 28 bytes, an
  -- UPDATE_REQUEST, an ACK and a NACK 18 each, and an UPDATE_DATA 26 and four for each number, at
  -- most 2066.
  pub length-encode :
      (beacon_size request_size update_size ack_size nack_size : ℕ)
      → IsBeacon beacon
      → IsUpdate hdr removes adds
      → encode_beacon beacon_size s q beacon ≡ some fb
      → encode_update_request request_size s r q request ≡ some fr
      → encode_update_data update_size s r q hdr removes adds ≡ some fu
      → encode_ack ack_size s r q ack ≡ some fa
      → encode_nack nack_size s r q nack ≡ some fn
      → ((length fb ≡ 28) × (length fb ≤ beacon_size))
        × ((length fr ≡ 18) × (length fr ≤ request_size))
        × ((length fa ≡ 18) × (length fa ≤ ack_size))
        × ((length fn ≡ 18) × (length fn ≤ nack_size))
        × ((length fu ≡ 26 + 4 * hdr.remove_count + 4 * hdr.add_count)
            × (length fu ≤ update_size)
            × (length fu ≤ 2066))
  length-encode size sr su sa sn vb vu eb er eu ea en =
      let b = encode_beacon_inv size s q beacon vb eb in
      let req = encode_update_request_inv sr s q r request er in
      let u = encode_update_data_inv su s q r hdr removes adds vu.remove_small vu.add_small eu in
      let a = encode_ack_inv sa s q r ack ea in
      let n = encode_nack_inv sn s q r nack en in
      let w = two_words request.requested_update_id request.receiver_dataset_ver in
      let k = two_words ack.ack_update_id ack.receiver_dataset_ver in
      let full =
        (decode_update_data-encode_update_data su s q clear_common r ids hdr removes adds vu
          eu).5 in
      let lb : length fb ≡ 28 = omega (
        arith,
        ap length b.5,
        length-frame msg_beacon s 0 q (beacon_bytes beacon),
        length-beacon_bytes beacon,
      ) in
      let lr : length fr ≡ 18 = omega (
        arith,
        ap length req.4,
        length-frame msg_update_request s r q w,
        length-two_words request.requested_update_id request.receiver_dataset_ver,
      ) in
      let la : length fa ≡ 18 = omega (
        arith,
        ap length a.5,
        length-frame msg_ack s r q k,
        length-two_words ack.ack_update_id ack.receiver_dataset_ver,
      ) in
      let ln : length fn ≡ 18 = omega (
        arith,
        ap length n.4,
        length-frame msg_nack s r q (nack_bytes nack),
        length-nack_bytes nack,
      ) in
      (
        (lb, omega (arith, lb, b.0)),
        (lr, omega (arith, lr, req.0)),
        (la, omega (arith, la, a.0)),
        (ln, omega (arith, ln, n.0)),
        (full, omega (arith, full, u.0), omega (arith, full, vu.remove_small, vu.add_small)),
      )
