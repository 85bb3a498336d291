-- ===== src/Op/RoundTrip.antt =====
-- Each decoder reads back what its encoder wrote.
use num8_lup.Base.{ℕ, ◌≤◌, ◌≡◌, arith, true, some, List, length}
use num8_lup.Op.Types.{
  CommonHeader, BeaconPayload, RequestPayload, DataPayload, AckPayload, NackPayload, msg_beacon,
  msg_request, msg_data, msg_ack, msg_nack, AreIds, IsBeacon, IsRequest, IsData, IsAck, IsNack,
}
use num8_lup.Op.Encode.{encode_beacon, encode_request, encode_data, encode_ack, encode_nack}
use num8_lup.Op.Decode.{
  header_fits, read_data, decode_beacon, decode_request, decode_data, decode_ack, decode_nack,
}
use num8_lup.Op.Shape.{header_of, validate_common_header-frame}
use num8_lup.Op.Payload.{
  two_words, data_bytes, nack_bytes, two_words_read, data_read, nack_read, encode_beacon_inv,
  encode_request_inv, encode_data_inv, encode_ack_inv, encode_nack_inv,
}

module _ (cap s r q : ℕ) (h : CommonHeader) {f : List ℕ} (ids : AreIds s r q) where
  -- What `encode_request` writes, for ids and a payload in the ranges of their C types, is 18
  -- bytes that the capacity holds, and `decode_request` accepts them and reads back the header and
  -- the payload.
  pub decode_request-encode_request :
      (p : RequestPayload)
      → IsRequest p
      → encode_request cap s r q p ≡ some f
      → (length f ≡ 18) × (18 ≤ cap) × (decode_request f h ≡ (true, header_of msg_request s r q, p))
  unfolding decode_request header_fits
  decode_request-encode_request p v e =
      let body = two_words p.stream_id p.next_needed_op_id in
      ground (
        arith,
        encode_request_inv cap s r q p e,
        two_words_read msg_request s r q p.stream_id p.next_needed_op_id v.0 v.1,
        validate_common_header-frame msg_request s r q body ids.0 ids.1 ids.2 h,
      )

  -- What `encode_ack` writes, for ids and a payload in the ranges of their C types, is 18 bytes
  -- that the capacity holds, and `decode_ack` accepts them and reads back the header and the
  -- payload.
  pub decode_ack-encode_ack :
      (p : AckPayload)
      → IsAck p
      → encode_ack cap s r q p ≡ some f
      → (length f ≡ 18) × (18 ≤ cap) × (decode_ack f h ≡ (true, header_of msg_ack s r q, p))
  unfolding decode_ack header_fits
  decode_ack-encode_ack p v e =
      let body = two_words p.stream_id p.ack_op_id in
      ground (
        arith,
        encode_ack_inv cap s r q p e,
        two_words_read msg_ack s r q p.stream_id p.ack_op_id v.0 v.1,
        validate_common_header-frame msg_ack s r q body ids.0 ids.1 ids.2 h,
      )

  -- What `encode_nack` writes, for ids and a payload in the ranges of their C types, is 22 bytes
  -- that the capacity holds, and `decode_nack` accepts them and reads back the header and the
  -- payload.
  pub decode_nack-encode_nack :
      (p : NackPayload)
      → IsNack p
      → encode_nack cap s r q p ≡ some f
      → (length f ≡ 22) × (22 ≤ cap) × (decode_nack f h ≡ (true, header_of msg_nack s r q, p))
  unfolding decode_nack header_fits
  decode_nack-encode_nack p v e = ground (
    arith,
    encode_nack_inv cap s r q p e,
    nack_read msg_nack s r q p v.0 v.1 v.2 v.3,
    validate_common_header-frame msg_nack s r q (nack_bytes p) ids.0 ids.1 ids.2 h,
  )

  -- What `encode_data` writes, for ids and a payload in the ranges of their C types, is 26 bytes
  -- that the capacity holds, and `decode_data` accepts them and reads back the header and the
  -- payload.
  pub decode_data-encode_data :
      (p : DataPayload)
      → IsData p
      → encode_data cap s r q p ≡ some f
      → (length f ≡ 26) × (26 ≤ cap) × (decode_data f h ≡ (true, header_of msg_data s r q, p))
  unfolding decode_data read_data header_fits
  decode_data-encode_data p v e = ground (
    arith,
    encode_data_inv cap s r q p e,
    data_read msg_data s r q p v.0 v.1 (omega (arith, encode_data_inv cap s r q p e)),
    validate_common_header-frame msg_data s r q (data_bytes p) ids.0 ids.1 ids.2 h,
  )

-- What `encode_beacon` writes, for ids and a payload in the ranges of their C types, is 18 bytes
-- that the capacity holds, and `decode_beacon` accepts them and reads back the header and the
-- payload.
pub decode_beacon-encode_beacon :
    (cap s q : ℕ) (h : CommonHeader) {f : List ℕ} (p : BeaconPayload)
    → AreIds s 0 q
    → IsBeacon p
    → encode_beacon cap s q p ≡ some f
    → (length f ≡ 18) × (18 ≤ cap) × (decode_beacon f h ≡ (true, header_of msg_beacon s 0 q, p))
unfolding decode_beacon header_fits
decode_beacon-encode_beacon cap s q h p ids v e =
    let body = two_words p.stream_id p.latest_op_id in
    ground (
      arith,
      encode_beacon_inv cap s q p e,
      two_words_read msg_beacon s 0 q p.stream_id p.latest_op_id v.0 v.1,
      validate_common_header-frame msg_beacon s 0 q body ids.0 ids.1 ids.2 h,
    )
