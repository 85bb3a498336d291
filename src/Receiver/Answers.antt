-- ===== src/Receiver/Answers.antt =====
-- What the receiver answers to a data frame of its sender, and that the sender can decode it.
use num8_lup.Base.{ℕ, ◌+◌, ◌^◌, ◌≤◌, ◌<◌, ◌≡◌, ◌≢◌, ◌⊎◌, arith, true, false, Option, some, List}
use num8_lup.Op.{
  clear_common, DataPayload, AckPayload, NackPayload, msg_data, msg_ack, msg_nack, err_sequence_gap,
  IsData, encode_data, decode_data, encode_ack, decode_ack, encode_nack, decode_nack, emit,
  frame_len, err_apply_failed,
}
use num8_lup.Op.Shape.{header_of, frame}
use num8_lup.Op.Payload.{two_words, nack_bytes, encode_data_inv}
use num8_lup.Op.RoundTrip.{decode_data-encode_data, decode_ack-encode_ack, decode_nack-encode_nack}
use num8_lup.Receiver.Defs.{
  Receiver, ApplyFn, try_apply, apply_data, handle_data, refuse_data, room_for, answer_ack,
  answer_nack, count_frame,
}

-- A receiver whose fields hold values of their C types, and whose ids are in use.
pub record IsReceiver (r : Receiver) : Type 0 where
  pub id : r.receiver_id < 2 ^ 16
  pub id_used : r.receiver_id ≢ 0
  pub stream : r.stream_id < 2 ^ 32
  pub stream_used : r.stream_id ≢ 0
  pub seq : r.seq < 2 ^ 16

-- With room and ids in use the encoder of an ACK answers.
encode_ack_answers :
    (cap s r q : ℕ) (p : AckPayload)
    → 18 ≤ cap
    → s ≢ 0
    → r ≢ 0
    → p.stream_id ≢ 0
    → p.ack_op_id ≢ 0
    → encode_ack cap s r q p ≡ some (frame msg_ack s r q (two_words p.stream_id p.ack_op_id))
unfolding encode_ack emit frame_len
encode_ack_answers cap s r q p room s_used r_used stream op = ground arith

encode_nack_answers :
    (cap s r q : ℕ) (p : NackPayload)
    → 22 ≤ cap
    → s ≢ 0
    → r ≢ 0
    → p.stream_id ≢ 0
    → p.expected_next_op_id ≢ 0
    → encode_nack cap s r q p ≡ some (frame msg_nack s r q (nack_bytes p))
unfolding encode_nack emit frame_len
encode_nack_answers cap s r q p room s_used r_used stream op = ground arith

-- A data frame of the sender with id `s`, made for this receiver with sequence number `q`.
module _ {U : Type 0} (apply_fn : Option (ApplyFn U)) (user : U) {r : Receiver} (v : IsReceiver r)
    (cap s q : ℕ) (p : DataPayload) {f : List ℕ} (s_id : s < 2 ^ 16) (q_id : q < 2 ^ 16)
    (p_ids : IsData p) (made : encode_data cap s r.receiver_id q p ≡ some f)
    (known : (r.expected_sender_id ≡ 0) ⊎ (r.expected_sender_id ≡ s))
    (stream : p.stream_id ≡ r.stream_id) (out_cap : ℕ) (room : 22 ≤ out_cap) where
  decoded : decode_data f clear_common ≡ (true, header_of msg_data s r.receiver_id q, p)
  decoded =
      (decode_data-encode_data cap s r.receiver_id q clear_common (s_id, v.id, q_id) p p_ids made).2

  reply_ack :
      (id : ℕ)
      → id ≢ 0
      → id < 2 ^ 32
      → (a : List ℕ) × (encode_ack out_cap r.receiver_id s r.seq
            (record { stream_id = r.stream_id; ack_op_id = id })
          ≡ some a)
        × (decode_ack a clear_common ≡ (
          true,
          header_of msg_ack r.receiver_id s r.seq,
          record { stream_id = r.stream_id; ack_op_id = id },
        ))
  reply_ack id used small =
      let some_ack =
        encode_ack_answers out_cap r.receiver_id s r.seq
          (record { stream_id = r.stream_id; ack_op_id = id }) (omega arith) v.id_used
          (encode_data_inv cap s r.receiver_id q p made).1 v.stream_used used in
      (
        _,
        some_ack,
        (decode_ack-encode_ack out_cap r.receiver_id s r.seq clear_common (v.id, s_id, v.seq) _
            (v.stream, small) some_ack).2,
      )

  -- To a data frame that a sender it expects made for it, in its stream and in the ranges of the C
  -- types, with the next operation, which the callback accepts, the receiver answers (with 22
  -- bytes of buffer) an ACK that decodes with that number, which it counts.
  pub handle_data_next :
      {user' : U}
      → p.op_id ≡ r.last_applied_op_id + 1
      → try_apply apply_fn user p.op_type p.value ≡ (true, user')
      → (a : List ℕ) × (handle_data apply_fn user r f out_cap
          ≡ (some a, record (count_frame r) { last_applied_op_id = p.op_id }, user'))
        × (decode_ack a clear_common ≡ (
          true,
          header_of msg_ack r.receiver_id s r.seq,
          record { stream_id = r.stream_id; ack_op_id = p.op_id },
        ))
  unfolding handle_data refuse_data apply_data answer_ack room_for
  handle_data_next next accepted =
      let (a, e, back) =
        reply_ack p.op_id (encode_data_inv cap s r.receiver_id q p made).4 p_ids.1 in
      (a, ground (arith, decoded, encode_data_inv cap s r.receiver_id q p made), back)

  -- To a data frame that a sender it expects made for it, in its stream and in the ranges of the C
  -- types, with an operation that is applied already, the receiver answers (with 22 bytes of
  -- buffer) an ACK that decodes with the last applied number, without calling the callback.
  pub handle_data_again :
      p.op_id ≤ r.last_applied_op_id
      → r.last_applied_op_id < 2 ^ 32
      → (a : List ℕ) × (handle_data apply_fn user r f out_cap ≡ (some a, count_frame r, user))
        × (decode_ack a clear_common ≡ (
          true,
          header_of msg_ack r.receiver_id s r.seq,
          record { stream_id = r.stream_id; ack_op_id = r.last_applied_op_id },
        ))
  unfolding handle_data refuse_data apply_data answer_ack room_for
  handle_data_again old small =
      let (a, e, back) =
        reply_ack r.last_applied_op_id
          (λ z. ground (arith, (encode_data_inv cap s r.receiver_id q p made).4)) small in
      (a, ground (arith, decoded, encode_data_inv cap s r.receiver_id q p made), back)

  abbrev pub refusal : ℕ → NackPayload
  refusal error_code = record {
    stream_id = r.stream_id;
    error_code = error_code;
    detail = 0;
    expected_next_op_id = r.last_applied_op_id + 1;
  }

  reply_nack :
      (code : ℕ)
      → code < 2 ^ 16
      → r.last_applied_op_id + 1 < 2 ^ 32
      → (a : List ℕ) × (encode_nack out_cap r.receiver_id s r.seq (refusal code) ≡ some a)
        × (decode_nack a clear_common
            ≡ (true, header_of msg_nack r.receiver_id s r.seq, refusal code))
  reply_nack code code_small small =
      let some_nack =
        encode_nack_answers out_cap r.receiver_id s r.seq (refusal code) room v.id_used
          (encode_data_inv cap s r.receiver_id q p made).1 v.stream_used (omega arith) in
      (
        _,
        some_nack,
        (decode_nack-encode_nack out_cap r.receiver_id s r.seq clear_common (v.id, s_id, v.seq) _
            (v.stream, code_small, omega arith, small) some_nack).2,
      )

  -- To a data frame that a sender it expects made for it, in its stream and in the ranges of the C
  -- types, with an operation beyond the next one, the receiver answers (with 22 bytes of buffer) a
  -- NACK that decodes with the sequence-gap error and the number it expects, without calling the
  -- callback.
  pub handle_data_gap :
      r.last_applied_op_id + 1 < p.op_id
      → (a : List ℕ) × (handle_data apply_fn user r f out_cap ≡ (some a, count_frame r, user))
        × (decode_nack a clear_common
            ≡ (true, header_of msg_nack r.receiver_id s r.seq, refusal err_sequence_gap))
  unfolding handle_data refuse_data apply_data answer_nack room_for
  handle_data_gap gap =
      let (a, e, back) = reply_nack err_sequence_gap (omega arith) (omega (arith, p_ids.1)) in
      (a, ground (arith, decoded, encode_data_inv cap s r.receiver_id q p made), back)

  -- To a data frame that a sender it expects made for it, in its stream and in the ranges of the C
  -- types, with the next operation, which the callback refuses, the receiver answers (with 22
  -- bytes of buffer) a NACK that decodes with the apply-failed error and the same number expected,
  -- and counts nothing.
  pub handle_data_failed :
      {user' : U}
      → p.op_id ≡ r.last_applied_op_id + 1
      → try_apply apply_fn user p.op_type p.value ≡ (false, user')
      → (a : List ℕ) × (handle_data apply_fn user r f out_cap ≡ (some a, count_frame r, user'))
        × (decode_nack a clear_common
            ≡ (true, header_of msg_nack r.receiver_id s r.seq, refusal err_apply_failed))
  unfolding handle_data refuse_data apply_data answer_nack room_for
  handle_data_failed next fails =
      let (a, e, back) = reply_nack err_apply_failed (omega arith) (omega (arith, p_ids.1)) in
      (a, ground (arith, decoded, encode_data_inv cap s r.receiver_id q p made), back)
