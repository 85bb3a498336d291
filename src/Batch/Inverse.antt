-- ===== src/Batch/Inverse.antt =====
-- When an encoder of src/num8lora.c answers, and with which frame.
use num8_lup.Base.{
  ℕ, zero, suc, ◌+◌, ◌*◌, ◌^◌, ◌≤◌, ◌<◌, ◌≡◌, ◌≢◌, refl, ap, arith, some, List, [], ◌∷◌, length,
  take, All,
}
use num8_lup.Codec.{add_u32, mul_u32}
use num8_lup.Op.Shape.{frame}
use num8_lup.Op.Payload.{two_words}
use num8_lup.Batch.Types.{
  msg_beacon, msg_update_request, msg_update_data, msg_ack, msg_nack, BeaconPayload,
  UpdateRequestPayload, UpdateHeader, AckPayload, NackPayload, Numbers,
}
use num8_lup.Batch.Update.{array}
use num8_lup.Batch.Encode.{
  emit, frame_len, expected_size, payload_len, update_bytes, encode_common, finalize_crc,
  encode_beacon, encode_update_request, encode_update_data, encode_ack, encode_nack,
}
use num8_lup.Batch.Words.{IsWord}
use num8_lup.Batch.Payload.{beacon_bytes, nack_bytes}

-- The fields hold values of their C types.
abbrev pub IsBeacon : BeaconPayload → Type 0
IsBeacon p =
    IsWord p.current_update_id
    × IsWord p.dataset_version_from
    × IsWord p.dataset_version_to
    × (p.remove_count < 256)
    × (p.add_count < 256)
    × (p.update_payload_crc16 < 2 ^ 16)

pub record IsUpdate (hdr : UpdateHeader) (removes adds : Numbers) : Type 0 where
  pub id : IsWord hdr.update_id
  pub from : IsWord hdr.dataset_version_from
  pub to : IsWord hdr.dataset_version_to
  pub remove_small : hdr.remove_count < 256
  pub add_small : hdr.add_count < 256
  pub removes_there : hdr.remove_count ≤ length (array removes)
  pub adds_there : hdr.add_count ≤ length (array adds)
  pub remove_words : All IsWord (array removes)
  pub add_words : All IsWord (array adds)

pub length-take : (n : ℕ) (xs : List ℕ) → n ≤ length xs → length (take n xs) ≡ n
length-take zero xs h = refl
length-take (suc n) [] h = absurd (omega arith)
length-take (suc n) (x ∷ xs) h = ap suc (length-take n xs (omega arith))

pub expected_size_lem :
    (rc ac : ℕ) → rc < 256 → ac < 256 → expected_size rc ac ≡ some (16 + 4 * rc + 4 * ac)
unfolding expected_size add_u32
expected_size_lem rc ac hr ha = ground arith

pub payload_len_lem :
    (rc ac : ℕ) → rc < 256 → ac < 256 → payload_len rc ac ≡ some (16 + 4 * rc + 4 * ac)
unfolding payload_len add_u32 mul_u32
payload_len_lem rc ac hr ha = ground arith

pub frame_len_lem : (n : ℕ) → n < 2 ^ 16 → frame_len n ≡ some (n + 10)
unfolding frame_len add_u32
frame_len_lem n h = ground arith

module _ (cap s q : ℕ) where
  -- When an encoder answers, and with which frame.
  pub encode_beacon_inv :
      (p : BeaconPayload) {f : List ℕ}
      → IsBeacon p
      → encode_beacon cap s q p ≡ some f
      → (28 ≤ cap)
        × (s ≢ 0)
        × (p.current_update_id ≢ 0)
        × (p.dataset_version_from < p.dataset_version_to)
        × (p.update_payload_size ≡ 16 + 4 * p.remove_count + 4 * p.add_count)
        × (f ≡ frame msg_beacon s 0 q (beacon_bytes p))
  unfolding encode_beacon emit frame_len encode_common finalize_crc
  encode_beacon_inv p v e = ground (arith, expected_size_lem p.remove_count p.add_count)

  pub encode_update_request_inv :
      (r : ℕ) (p : UpdateRequestPayload) {f : List ℕ}
      → encode_update_request cap s r q p ≡ some f
      → (18 ≤ cap)
        × (s ≢ 0)
        × (r ≢ 0)
        × (p.requested_update_id ≢ 0)
        × (f
            ≡ frame msg_update_request s r q
                (two_words p.requested_update_id p.receiver_dataset_ver))
  unfolding encode_update_request emit frame_len encode_common finalize_crc
  encode_update_request_inv r p e = ground arith

  pub encode_ack_inv :
      (r : ℕ) (p : AckPayload) {f : List ℕ}
      → encode_ack cap s r q p ≡ some f
      → (18 ≤ cap)
        × (s ≢ 0)
        × (r ≢ 0)
        × (p.ack_update_id ≢ 0)
        × (p.receiver_dataset_ver ≢ 0)
        × (f ≡ frame msg_ack s r q (two_words p.ack_update_id p.receiver_dataset_ver))
  unfolding encode_ack emit frame_len encode_common finalize_crc
  encode_ack_inv r p e = ground arith

  pub encode_nack_inv :
      (r : ℕ) (p : NackPayload) {f : List ℕ}
      → encode_nack cap s r q p ≡ some f
      → (18 ≤ cap)
        × (s ≢ 0)
        × (r ≢ 0)
        × (p.nack_update_id ≢ 0)
        × (f ≡ frame msg_nack s r q (nack_bytes p))
  unfolding encode_nack emit frame_len encode_common finalize_crc
  encode_nack_inv r p e = ground arith

  pub encode_update_data_inv :
      (r : ℕ) (hdr : UpdateHeader) (removes adds : Numbers) {f : List ℕ}
      → hdr.remove_count < 256
      → hdr.add_count < 256
      → encode_update_data cap s r q hdr removes adds ≡ some f
      → (26 + 4 * hdr.remove_count + 4 * hdr.add_count ≤ cap)
        × (s ≢ 0)
        × (r ≢ 0)
        × (hdr.update_id ≢ 0)
        × (hdr.dataset_version_from < hdr.dataset_version_to)
        × (hdr.reserved0 ≡ 0)
        × (f
            ≡ frame msg_update_data s r q (
                update_bytes hdr
                  (take hdr.remove_count (array removes))
                  (take hdr.add_count (array adds))))
  unfolding encode_update_data encode_common finalize_crc
  encode_update_data_inv r hdr removes adds hr ha e = ground (
    arith,
    payload_len_lem hdr.remove_count hdr.add_count hr ha,
    frame_len_lem (16 + 4 * hdr.remove_count + 4 * hdr.add_count),
  )
