-- ===== src/Batch/Shape.antt =====
-- The header and the CRC of a frame of src/num8lora.c, next to those of src/num8lora_op.c.
use num8_lup.Base.{ℕ, ◌^◌, ◌≤◌, ◌<◌, ◌≡◌, ◌≢◌, ◌⊎◌, refl, ◌∙◌, arith, true, List}
use num8_lup.Op.{CommonHeader, decode_common_header as op_header, validate_frame_crc as op_crc}
use num8_lup.Op.Shape.{header_of, frame, validate_frame_crc-frame, decode_common_header-frame}
use num8_lup.Batch.Decode.{
  decode_common_header, validate_frame_crc, decode_header_and_crc, classify_frame,
}
use num8_lup.Batch.Types.{any_receiver_id, msg_beacon, msg_nack}

pub same_header : (b : List ℕ) → decode_common_header b ≡ op_header b
unfolding decode_common_header op_header
same_header b = refl

pub same_crc : (b : List ℕ) → validate_frame_crc b ≡ op_crc b
unfolding validate_frame_crc op_crc
same_crc b = refl

module _ (t s r q : ℕ) (payload : List ℕ) (hs : s < 2 ^ 16) (hr : r < 2 ^ 16)
    (hq : q < 2 ^ 16) where
  crc_ok : validate_frame_crc (frame t s r q payload) ≡ true
  crc_ok = same_crc (frame t s r q payload) ∙ validate_frame_crc-frame t s r q payload

  pub header_ok : decode_common_header (frame t s r q payload) ≡ (true, header_of t s r q)
  header_ok =
      same_header (frame t s r q payload) ∙ decode_common_header-frame t s r q payload hs hr hq

  pub decode_header_and_crc-frame :
      (h : CommonHeader)
      → decode_header_and_crc (frame t s r q payload) t h ≡ (true, header_of t s r q)
  unfolding decode_header_and_crc
  decode_header_and_crc-frame h = ground (arith, crc_ok, header_ok)

  -- A frame of the protocol for that receiver is accepted with its header.
  pub classify_frame-frame :
      (expected_receiver_id expected_msg_type : ℕ)
      → msg_beacon ≤ t
      → t ≤ msg_nack
      → (expected_msg_type ≡ 0) ⊎ (expected_msg_type ≡ t)
      → (expected_receiver_id ≡ any_receiver_id) ⊎ (expected_receiver_id ≡ r) × (t ≢ msg_beacon)
      → classify_frame (frame t s r q payload) expected_receiver_id expected_msg_type
        ≡ (true, header_of t s r q, 0)
  unfolding classify_frame
  classify_frame-frame er et lo hi ty rec = ground (arith, crc_ok, header_ok)

-- What `classify_frame` accepts for a type, the decoders of that type accept as far as the header.
pub classify_frame-decode_header_and_crc :
    (b : List ℕ) (receiver type : ℕ) (h : CommonHeader)
    → type ≢ 0
    → (classify_frame b receiver type).0 ≡ true
    → decode_header_and_crc b type h ≡ (true, (classify_frame b receiver type).1)
unfolding classify_frame decode_header_and_crc
classify_frame-decode_header_and_crc b receiver type h used e = ground arith
