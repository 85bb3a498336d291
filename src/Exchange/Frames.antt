-- ===== src/Exchange/Frames.antt =====
-- The frames of an exchange, and the conditions under which the encoders write them.
use num8_lup.Base.{ℕ, ◌+◌, ◌*◌, ◌≤◌, ◌<◌, ◌≡◌, ◌≢◌, arith, false, some, List, take}
use num8_lup.Op.Shape.{frame}
use num8_lup.Op.Payload.{two_words}
use num8_lup.Batch.{
  array, missing, Numbers, UpdateHeader, BeaconPayload, UpdateRequestPayload, AckPayload, emit,
  encode_common, finalize_crc, update_bytes, encode_beacon, encode_update_request,
  encode_update_data, encode_ack, msg_beacon, msg_update_request, msg_update_data, msg_ack,
}
use num8_lup.Batch.Payload.{beacon_bytes}
use num8_lup.Batch.Inverse.{expected_size_lem, payload_len_lem, frame_len_lem}

abbrev pub data_frame : ℕ → ℕ → ℕ → UpdateHeader → Numbers → Numbers → List ℕ
data_frame s r q hdr removes adds =
    frame msg_update_data s r q
      (update_bytes hdr (take hdr.remove_count (array removes)) (take hdr.add_count (array adds)))

module _ (cap s q : ℕ) where
  pub encode_beacon_lem :
      (p : BeaconPayload)
      → 28 ≤ cap
      → s ≢ 0
      → p.current_update_id ≢ 0
      → p.dataset_version_from < p.dataset_version_to
      → p.remove_count < 256
      → p.add_count < 256
      → p.update_payload_size ≡ 16 + 4 * p.remove_count + 4 * p.add_count
      → encode_beacon cap s q p ≡ some (frame msg_beacon s 0 q (beacon_bytes p))
  unfolding encode_beacon emit encode_common finalize_crc
  encode_beacon_lem p c hs hi hv hr ha e =
      ground (arith, expected_size_lem p.remove_count p.add_count hr ha, frame_len_lem 18)

  pub encode_update_request_lem :
      (r : ℕ) (p : UpdateRequestPayload)
      → 18 ≤ cap
      → s ≢ 0
      → r ≢ 0
      → p.requested_update_id ≢ 0
      → encode_update_request cap s r q p
        ≡ some (
            frame msg_update_request s r q (two_words p.requested_update_id p.receiver_dataset_ver))
  unfolding encode_update_request emit encode_common finalize_crc
  encode_update_request_lem r p c hs hr hi = ground (arith, frame_len_lem 8)

  pub encode_ack_lem :
      (r : ℕ) (p : AckPayload)
      → 18 ≤ cap
      → s ≢ 0
      → r ≢ 0
      → p.ack_update_id ≢ 0
      → p.receiver_dataset_ver ≢ 0
      → encode_ack cap s r q p
        ≡ some (frame msg_ack s r q (two_words p.ack_update_id p.receiver_dataset_ver))
  unfolding encode_ack emit encode_common finalize_crc
  encode_ack_lem r p c hs hr hi hv = ground (arith, frame_len_lem 8)

  pub encode_update_data_lem :
      (r : ℕ) (hdr : UpdateHeader) (removes adds : Numbers)
      → 26 + 4 * hdr.remove_count + 4 * hdr.add_count ≤ cap
      → s ≢ 0
      → r ≢ 0
      → hdr.update_id ≢ 0
      → hdr.dataset_version_from < hdr.dataset_version_to
      → hdr.reserved0 ≡ 0
      → hdr.remove_count < 256
      → hdr.add_count < 256
      → missing hdr.remove_count removes ≡ false
      → missing hdr.add_count adds ≡ false
      → encode_update_data cap s r q hdr removes adds ≡ some (data_frame s r q hdr removes adds)
  unfolding encode_update_data encode_common finalize_crc
  encode_update_data_lem r hdr removes adds c hs hr hi hv hz h1 h2 m1 m2 = ground (
    arith,
    m1,
    m2,
    payload_len_lem hdr.remove_count hdr.add_count h1 h2,
    frame_len_lem (16 + 4 * hdr.remove_count + 4 * hdr.add_count),
  )
