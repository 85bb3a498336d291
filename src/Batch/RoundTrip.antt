-- ===== src/Batch/RoundTrip.antt =====
-- The decoders of src/num8lora.c after the encoders.
use num8_lup.Base.{
  ℕ, zero, suc, ◌+◌, ◌*◌, ◌^◌, ◌<◌, ◌≡◌, ◌≢◌, refl, sym, ◌∙◌, ap, subst, arith, true, some, List,
  [], ◌∷◌, ◌++◌, length, take, drop, All,
}
use num8_lup.Op.{CommonHeader, AreIds}
use num8_lup.Op.Shape.{header_of, frame}
use num8_lup.Op.Payload.{two_words, two_words_read}
use num8_lup.Batch.Types.{
  msg_beacon, msg_update_request, msg_update_data, msg_ack, msg_nack, BeaconPayload,
  UpdateRequestPayload, UpdateHeader, AckPayload, NackPayload, Numbers,
}
use num8_lup.Batch.Update.{array, read_numbers}
use num8_lup.Batch.Encode.{
  write_numbers, update_bytes, encode_beacon, encode_update_request, encode_update_data, encode_ack,
  encode_nack,
}
use num8_lup.Batch.Decode.{
  decode_beacon, decode_update_request, read_update, decode_update_data_header, decode_ack,
  decode_nack, decode_header_and_crc,
}
use num8_lup.Batch.Words.{IsWord, read_numbers-write_numbers}
use num8_lup.Batch.Shape.{decode_header_and_crc-frame}
use num8_lup.Batch.Payload.{beacon_bytes, nack_bytes, beacon_read, update_read, nack_read}
use num8_lup.Batch.Inverse.{
  IsBeacon, IsUpdate, length-take, encode_beacon_inv, encode_update_request_inv, encode_ack_inv,
  encode_nack_inv, encode_update_data_inv,
}

All-take {κ} : (P : ℕ → Type κ) (n : ℕ) (xs : List ℕ) → All P xs → All P (take n xs)
All-take P zero xs h = tt
All-take P (suc n) [] h = tt
All-take P (suc n) (x ∷ xs) h = (h.0, All-take P n xs h.1)

read_counted :
    (n : ℕ) (xs rest : List ℕ)
    → n ≡ length xs
    → All IsWord xs
    → read_numbers n (write_numbers xs ++ rest) ≡ xs
read_counted n xs rest e h =
    ap (λ k. read_numbers k (write_numbers xs ++ rest)) e ∙ read_numbers-write_numbers xs rest h

-- The decoder of an update, from what it reads.
decode_update_of :
    (b : List ℕ) (h h' : CommonHeader) (hdr : UpdateHeader) (remove_bytes add_bytes : List ℕ)
    → decode_header_and_crc b msg_update_data h ≡ (true, h')
    → read_update b ≡ hdr
    → length b ≡ 26 + 4 * hdr.remove_count + 4 * hdr.add_count
    → hdr.remove_count < 256
    → hdr.add_count < 256
    → hdr.reserved0 ≡ 0
    → h'.sender_id ≢ 0
    → h'.receiver_id ≢ 0
    → hdr.update_id ≢ 0
    → hdr.dataset_version_from < hdr.dataset_version_to
    → drop 24 b ≡ remove_bytes
    → drop (24 + 4 * hdr.remove_count) b ≡ add_bytes
    → decode_update_data_header b h ≡ (true, h', hdr, some (remove_bytes, add_bytes))
unfolding decode_update_data_header
decode_update_of b h h' hdr rb ab head fields size hr ha z s r u v x y = rw head (ground arith)

module _ (cap s q : ℕ) (h : CommonHeader) {f : List ℕ} where
  pub decode_beacon-encode_beacon :
      (p : BeaconPayload)
      → AreIds s 0 q
      → IsBeacon p
      → encode_beacon cap s q p ≡ some f
      → decode_beacon f h ≡ (true, header_of msg_beacon s 0 q, p)
  unfolding decode_beacon
  decode_beacon-encode_beacon p ids v e =
      let i = encode_beacon_inv cap s q p v e in
      ground (
        arith,
        i,
        beacon_read msg_beacon s 0 q p v.0 v.1 v.2 (omega (arith, i.4, v.3, v.4)) v.5,
        decode_header_and_crc-frame msg_beacon s 0 q (beacon_bytes p) ids.0 ids.1 ids.2 h,
      )

  module _ (r : ℕ) (ids : AreIds s r q) where
    pub decode_update_request-encode_update_request :
        (p : UpdateRequestPayload)
        → IsWord p.requested_update_id
        → IsWord p.receiver_dataset_ver
        → encode_update_request cap s r q p ≡ some f
        → decode_update_request f h ≡ (true, header_of msg_update_request s r q, p)
    unfolding decode_update_request
    decode_update_request-encode_update_request p hx hy e = ground (
      arith,
      encode_update_request_inv cap s q r p e,
      two_words_read msg_update_request s r q p.requested_update_id p.receiver_dataset_ver hx hy,
      decode_header_and_crc-frame msg_update_request s r q
          (two_words p.requested_update_id p.receiver_dataset_ver) ids.0 ids.1 ids.2 h,
    )

    pub decode_ack-encode_ack :
        (p : AckPayload)
        → IsWord p.ack_update_id
        → IsWord p.receiver_dataset_ver
        → encode_ack cap s r q p ≡ some f
        → decode_ack f h ≡ (true, header_of msg_ack s r q, p)
    unfolding decode_ack
    decode_ack-encode_ack p hx hy e = ground (
      arith,
      encode_ack_inv cap s q r p e,
      two_words_read msg_ack s r q p.ack_update_id p.receiver_dataset_ver hx hy,
      decode_header_and_crc-frame msg_ack s r q (two_words p.ack_update_id p.receiver_dataset_ver)
          ids.0 ids.1 ids.2 h,
    )

    pub decode_nack-encode_nack :
        (p : NackPayload)
        → IsWord p.nack_update_id
        → p.error_code < 2 ^ 16
        → p.detail < 2 ^ 16
        → encode_nack cap s r q p ≡ some f
        → decode_nack f h ≡ (true, header_of msg_nack s r q, p)
    unfolding decode_nack
    decode_nack-encode_nack p hx hy hz e = ground (
      arith,
      encode_nack_inv cap s q r p e,
      nack_read msg_nack s r q p hx hy hz,
      decode_header_and_crc-frame msg_nack s r q (nack_bytes p) ids.0 ids.1 ids.2 h,
    )

    -- What `encode_update_data` writes, for ids, a header and numbers in the ranges of their C
    -- types and arrays at least as long as the counts, `decode_update_data_header` accepts: it
    -- reads back the header and gives pointers from which the numbers are read back, and the frame
    -- has the length that the counts give.
    pub decode_update_data-encode_update_data :
        (hdr : UpdateHeader) (removes adds : Numbers)
        → IsUpdate hdr removes adds
        → encode_update_data cap s r q hdr removes adds ≡ some f
        → (remove_bytes : List ℕ) × (add_bytes : List ℕ) × (decode_update_data_header f h
            ≡ (true, header_of msg_update_data s r q, hdr, some (remove_bytes, add_bytes)))
          × (read_numbers hdr.remove_count remove_bytes ≡ take hdr.remove_count (array removes))
          × (read_numbers hdr.add_count add_bytes ≡ take hdr.add_count (array adds))
          × (length f ≡ 26 + 4 * hdr.remove_count + 4 * hdr.add_count)
    unfolding decode_update_data_header read_update
    decode_update_data-encode_update_data hdr removes adds v e =
        let xs = take hdr.remove_count (array removes) in
        let ys = take hdr.add_count (array adds) in
        let nx : length xs ≡ hdr.remove_count =
          length-take hdr.remove_count (array removes) v.removes_there in
        let ny : length ys ≡ hdr.add_count = length-take hdr.add_count (array adds) v.adds_there in
        let i = encode_update_data_inv cap s q r hdr removes adds v.remove_small v.add_small e in
        let w = update_read msg_update_data s r q hdr xs ys v.id v.from v.to in
        let F = frame msg_update_data s r q (update_bytes hdr xs ys) in
        let fields : read_update F ≡ hdr = rw (w.1, w.2, w.3, w.4, w.5, w.6, sym i.5) refl in
        let second =
          subst
            (λ n.
              drop (24 + 4 * n) (frame msg_update_data s r q (update_bytes hdr xs ys))
              ≡ write_numbers ys ++ w.7)
            nx w.9 in
        let head =
          decode_header_and_crc-frame msg_update_data s r q (update_bytes hdr xs ys) ids.0 ids.1
            ids.2 h in
        (
          write_numbers xs ++ (write_numbers ys ++ w.7),
          write_numbers ys ++ w.7,
          subst
              (λ b. decode_update_data_header b h ≡ (
                true,
                header_of msg_update_data s r q,
                hdr,
                some (write_numbers xs ++ (write_numbers ys ++ w.7), write_numbers ys ++ w.7),
              ))
              (sym i.6)
              (decode_update_of F h (header_of msg_update_data s r q) hdr _ _ head fields
                (omega (arith, w.0, nx, ny)) v.remove_small v.add_small i.5 i.1 i.2 i.3 i.4 w.8
                second),
          read_counted hdr.remove_count xs _ (sym nx)
              (All-take IsWord hdr.remove_count (array removes) v.remove_words),
          read_counted hdr.add_count ys _ (sym ny)
              (All-take IsWord hdr.add_count (array adds) v.add_words),
          omega (arith, w.0, ap length i.6),
        )
