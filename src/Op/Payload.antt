-- ===== src/Op/Payload.antt =====
-- The payloads of a frame: what an encoder puts there, and how it is read at its offset.
use num8_lup.Base.{ℕ, ◌+◌, ◌^◌, ◌≤◌, ◌<◌, refl, ◌≡◌, ◌≢◌, ◌⊎◌, arith, some, List, ◌∷◌, ◌++◌}
use num8_lup.Base.{length, drop, get_or}
use num8_lup.Codec.{read_u16_le, read_u32_le, write_u32_le, write_u16_le}
use num8_lup.Codec.Words.{
  read_u16_le-write_u16_le, read_u32_le-write_u32_le, write_u16_bytes, write_u32_bytes,
}
use num8_lup.Op.Types.{
  BeaconPayload, RequestPayload, DataPayload, AckPayload, NackPayload, msg_beacon, msg_request,
  msg_data, msg_ack, msg_nack, op_add, op_remove, max_value,
}
use num8_lup.Op.Encode.{encode_beacon, encode_request, encode_data, encode_ack, encode_nack}
use num8_lup.Op.Shape.{frame, tail, length-frame, drop-frame, drop-drop, get_or-drop}

-- BEACON, REQUEST and ACK carry two 32-bit words.
abbrev pub two_words : ℕ → ℕ → List ℕ
two_words x y = write_u32_le x ++ write_u32_le y

abbrev pub data_bytes : DataPayload → List ℕ
data_bytes p =
    write_u32_le p.stream_id
    ++ (write_u32_le p.op_id ++ (p.op_type ∷ 0 ∷ (write_u16_le 0 ++ write_u32_le p.value)))

abbrev pub nack_bytes : NackPayload → List ℕ
nack_bytes p =
    write_u32_le p.stream_id
    ++ (write_u16_le p.error_code ++ (write_u16_le p.detail ++ write_u32_le p.expected_next_op_id))

-- The words of a payload in front of whatever follows it, each at its offset.
data_words :
    (p : DataPayload) (rest : List ℕ)
    → (drop 0 (data_bytes p ++ rest) ≡ write_u32_le p.stream_id ++ drop 4 (data_bytes p ++ rest))
      × (drop 4 (data_bytes p ++ rest) ≡ write_u32_le p.op_id ++ drop 8 (data_bytes p ++ rest))
      × (drop 8 (data_bytes p ++ rest) ≡ p.op_type ∷ 0 ∷ drop 10 (data_bytes p ++ rest))
      × (drop 10 (data_bytes p ++ rest) ≡ write_u16_le 0 ++ drop 12 (data_bytes p ++ rest))
      × (drop 12 (data_bytes p ++ rest) ≡ write_u32_le p.value ++ rest)
data_words p rest =
    rw
      (
        write_u32_bytes p.stream_id,
        write_u32_bytes p.op_id,
        write_u16_bytes 0,
        write_u32_bytes p.value,
      )
      (refl, refl, refl, refl, refl)

nack_words :
    (p : NackPayload) (rest : List ℕ)
    → (drop 0 (nack_bytes p ++ rest) ≡ write_u32_le p.stream_id ++ drop 4 (nack_bytes p ++ rest))
      × (drop 4 (nack_bytes p ++ rest) ≡ write_u16_le p.error_code ++ drop 6 (nack_bytes p ++ rest))
      × (drop 6 (nack_bytes p ++ rest) ≡ write_u16_le p.detail ++ drop 8 (nack_bytes p ++ rest))
      × (drop 8 (nack_bytes p ++ rest) ≡ write_u32_le p.expected_next_op_id ++ rest)
nack_words p rest =
    rw
      (
        write_u32_bytes p.stream_id,
        write_u16_bytes p.error_code,
        write_u16_bytes p.detail,
        write_u32_bytes p.expected_next_op_id,
      )
      (refl, refl, refl, refl)

pub two_words_words :
    (x y : ℕ) (rest : List ℕ)
    → (drop 0 (two_words x y ++ rest) ≡ write_u32_le x ++ drop 4 (two_words x y ++ rest))
      × (drop 4 (two_words x y ++ rest) ≡ write_u32_le y ++ rest)
two_words_words x y rest = rw (write_u32_bytes x, write_u32_bytes y) (refl, refl)

pub length-two_words : (x y : ℕ) → length (two_words x y) ≡ 8
length-two_words x y = rw (write_u32_bytes x, write_u32_bytes y)

length-data_bytes : (p : DataPayload) → length (data_bytes p) ≡ 16
length-data_bytes p = rw (
  write_u32_bytes p.stream_id,
  write_u32_bytes p.op_id,
  write_u32_bytes p.value,
  write_u16_bytes 0,
)

length-nack_bytes : (p : NackPayload) → length (nack_bytes p) ≡ 12
length-nack_bytes p = rw (
  write_u32_bytes p.stream_id,
  write_u16_bytes p.error_code,
  write_u16_bytes p.detail,
  write_u32_bytes p.expected_next_op_id,
)

module _ (t s r q : ℕ) where
  -- What a decoder reads of a word `k` bytes into the payload.
  pub read_u32_at :
      (payload : List ℕ) (n k x : ℕ) (rest : List ℕ)
      → n ≡ 8 + k
      → drop k (tail t s r q payload) ≡ write_u32_le x ++ rest
      → x < 2 ^ 32
      → read_u32_le (drop n (frame t s r q payload)) ≡ x
  read_u32_at payload n k x rest e at h =
      rw (drop-drop n 8 k (frame t s r q payload) e, drop-frame t s r q payload, at)
        (read_u32_le-write_u32_le x rest h)

  pub read_u16_at :
      (payload : List ℕ) (n k x : ℕ) (rest : List ℕ)
      → n ≡ 8 + k
      → drop k (tail t s r q payload) ≡ write_u16_le x ++ rest
      → x < 2 ^ 16
      → read_u16_le (drop n (frame t s r q payload)) ≡ x
  read_u16_at payload n k x rest e at h =
      rw (drop-drop n 8 k (frame t s r q payload) e, drop-frame t s r q payload, at)
        (read_u16_le-write_u16_le x rest h)

  pub two_words_read :
      (x y : ℕ)
      → x < 2 ^ 32
      → y < 2 ^ 32
      → let f = frame t s r q (two_words x y) in
        (length f ≡ 18) × (read_u32_le (drop 8 f) ≡ x) × (read_u32_le (drop 12 f) ≡ y)
  two_words_read x y hx hy =
      let w = two_words_words x y _ in
      (
        omega (arith, length-frame t s r q (two_words x y), length-two_words x y),
        read_u32_at (two_words x y) 8 0 x _ (omega arith) w.0 hx,
        read_u32_at (two_words x y) 12 4 y _ (omega arith) w.1 hy,
      )

  pub data_read :
      (p : DataPayload)
      → p.stream_id < 2 ^ 32
      → p.op_id < 2 ^ 32
      → p.value < 2 ^ 32
      → let f = frame t s r q (data_bytes p) in
        (length f ≡ 26)
        × (read_u32_le (drop 8 f) ≡ p.stream_id)
        × (read_u32_le (drop 12 f) ≡ p.op_id)
        × (get_or f 16 0 ≡ p.op_type)
        × (get_or f 17 0 ≡ 0)
        × (read_u16_le (drop 18 f) ≡ 0)
        × (read_u32_le (drop 20 f) ≡ p.value)
  data_read p hx hy hv =
      let w = data_words p _ in
      let body = data_bytes p in
      let f = frame t s r q body in
      (
        omega (arith, length-frame t s r q body, length-data_bytes p),
        read_u32_at body 8 0 _ _ (omega arith) w.0 hx,
        read_u32_at body 12 4 _ _ (omega arith) w.1 hy,
        rw (
          get_or-drop 16 16 0 f (omega arith),
          drop-drop 16 8 8 f (omega arith),
          drop-frame t s r q body,
          w.2,
        ),
        rw (
          get_or-drop 17 16 1 f (omega arith),
          drop-drop 16 8 8 f (omega arith),
          drop-frame t s r q body,
          w.2,
        ),
        read_u16_at body 18 10 _ _ (omega arith) w.3 (omega arith),
        read_u32_at body 20 12 _ _ (omega arith) w.4 hv,
      )

  pub nack_read :
      (p : NackPayload)
      → p.stream_id < 2 ^ 32
      → p.error_code < 2 ^ 16
      → p.detail < 2 ^ 16
      → p.expected_next_op_id < 2 ^ 32
      → let f = frame t s r q (nack_bytes p) in
        (length f ≡ 22)
        × (read_u32_le (drop 8 f) ≡ p.stream_id)
        × (read_u16_le (drop 12 f) ≡ p.error_code)
        × (read_u16_le (drop 14 f) ≡ p.detail)
        × (read_u32_le (drop 16 f) ≡ p.expected_next_op_id)
  nack_read p hx he hd hn =
      let w = nack_words p _ in
      let body = nack_bytes p in
      (
        omega (arith, length-frame t s r q body, length-nack_bytes p),
        read_u32_at body 8 0 _ _ (omega arith) w.0 hx,
        read_u16_at body 12 4 _ _ (omega arith) w.1 he,
        read_u16_at body 14 6 _ _ (omega arith) w.2 hd,
        read_u32_at body 16 8 _ _ (omega arith) w.3 hn,
      )

module _ (cap s q : ℕ) {f : List ℕ} where
  pub encode_beacon_inv :
      (p : BeaconPayload)
      → encode_beacon cap s q p ≡ some f
      → (18 ≤ cap)
        × (s ≢ 0)
        × (p.stream_id ≢ 0)
        × (p.latest_op_id ≢ 0)
        × (f ≡ frame msg_beacon s 0 q (two_words p.stream_id p.latest_op_id))
  unfolding encode_beacon
  encode_beacon_inv p e = ground arith

module _ (cap s r q : ℕ) {f : List ℕ} where
  pub encode_request_inv :
      (p : RequestPayload)
      → encode_request cap s r q p ≡ some f
      → (18 ≤ cap)
        × (s ≢ 0)
        × (r ≢ 0)
        × (p.stream_id ≢ 0)
        × (p.next_needed_op_id ≢ 0)
        × (f ≡ frame msg_request s r q (two_words p.stream_id p.next_needed_op_id))
  unfolding encode_request
  encode_request_inv p e = ground arith

  pub encode_data_inv :
      (p : DataPayload)
      → encode_data cap s r q p ≡ some f
      → (26 ≤ cap)
        × (s ≢ 0)
        × (r ≢ 0)
        × (p.stream_id ≢ 0)
        × (p.op_id ≢ 0)
        × (p.reserved0 ≡ 0)
        × (p.reserved1 ≡ 0)
        × ((p.op_type ≡ op_add) ⊎ (p.op_type ≡ op_remove))
        × (p.value ≤ max_value)
        × (f ≡ frame msg_data s r q (data_bytes p))
  unfolding encode_data
  encode_data_inv p e = ground arith

  pub encode_ack_inv :
      (p : AckPayload)
      → encode_ack cap s r q p ≡ some f
      → (18 ≤ cap)
        × (s ≢ 0)
        × (r ≢ 0)
        × (p.stream_id ≢ 0)
        × (p.ack_op_id ≢ 0)
        × (f ≡ frame msg_ack s r q (two_words p.stream_id p.ack_op_id))
  unfolding encode_ack
  encode_ack_inv p e = ground arith

  pub encode_nack_inv :
      (p : NackPayload)
      → encode_nack cap s r q p ≡ some f
      → (22 ≤ cap)
        × (s ≢ 0)
        × (r ≢ 0)
        × (p.stream_id ≢ 0)
        × (p.expected_next_op_id ≢ 0)
        × (f ≡ frame msg_nack s r q (nack_bytes p))
  unfolding encode_nack
  encode_nack_inv p e = ground arith
