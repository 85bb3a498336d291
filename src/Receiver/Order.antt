-- ===== src/Receiver/Order.antt =====
-- Every accepted operation is applied once and in order, whatever frames arrive.
use num8_lup.Base.{
  ℕ, ◌+◌, ◌≡◌, inl, inr, ap, arith, Bool, true, false, Option, none, some, List, ltb, Bool-cases,
  Option-cases,
}
use num8_lup.Op.{CommonHeader, DataPayload, clear_common, decode_data}
use num8_lup.Receiver.Defs.{
  Receiver, ApplyFn, try_apply, apply_data, handle_data, refuse_data, room_for, answer_ack,
  answer_nack,
}

-- A test that refuses a frame leaves the number of the last applied operation.
refuse_data-last :
    (r : Receiver) (hdr : CommonHeader) (d : DataPayload) (out_cap : ℕ) {answer : Option (List ℕ)}
    {r' : Receiver}
    → refuse_data r hdr d out_cap ≡ some (answer, r')
    → r'.last_applied_op_id ≡ r.last_applied_op_id
unfolding refuse_data answer_nack answer_ack room_for
refuse_data-last r hdr d out_cap e = ground arith

-- A frame for this receiver, of its stream, with the next operation.
abbrev pub IsNext : Receiver → Bool → CommonHeader → DataPayload → Type 0
IsNext r decoded hdr d =
    (decoded ≡ true)
    × (hdr.receiver_id ≡ r.receiver_id)
    × (d.stream_id ≡ r.stream_id)
    × (d.op_id ≡ r.last_applied_op_id + 1)

-- A frame that passes them is one.
refuse_data-IsNext :
    (r : Receiver) (hdr : CommonHeader) (d : DataPayload) (out_cap : ℕ)
    → refuse_data r hdr d out_cap ≡ none
    → IsNext r true hdr d
unfolding refuse_data
refuse_data-IsNext r hdr d out_cap e = ground arith

module _ {U : Type 0} (apply_fn : Option (ApplyFn U)) where
  -- What a frame can do: nothing to the user's state, one failed call of the callback, or one
  -- call that the callback accepts, which is counted.
  pub data Effect (user : U) (r : Receiver) (decoded : Bool) (hdr : CommonHeader) (d : DataPayload)
      : ℕ → U → Type 0 where
    untouched : Effect user r decoded hdr d r.last_applied_op_id user
    failed :
        {user' : U}
        → IsNext r decoded hdr d
        → try_apply apply_fn user d.op_type d.value ≡ (false, user')
        → Effect user r decoded hdr d r.last_applied_op_id user'
    applied :
        {user' : U}
        → IsNext r decoded hdr d
        → try_apply apply_fn user d.op_type d.value ≡ (true, user')
        → Effect user r decoded hdr d d.op_id user'

  apply_data-Effect :
      (user : U) (r : Receiver) (decoded : Bool) (hdr : CommonHeader) (d : DataPayload)
      (out_cap : ℕ)
      → IsNext r decoded hdr d
      → let e = apply_data apply_fn user r hdr.sender_id d out_cap in
        Effect user r decoded hdr d e.1.last_applied_op_id e.2
  unfolding apply_data answer_nack answer_ack room_for
  apply_data-Effect user r decoded hdr d out_cap next = elim (Bool-cases (ltb out_cap 22)) [
    | inl small ↦ rw (small, apply_data) untouched
    | inr room ↦ elim (Bool-cases (try_apply apply_fn user d.op_type d.value).0) [
      | inr fails ↦ rw (room, fails, apply_data) (failed next (call fails))
      | inl done ↦ elim (Bool-cases (ltb out_cap 18)) [
        | inl small ↦ rw (room, done, small, apply_data) (applied next (call done))
        | inr fits ↦ rw (room, done, fits, apply_data) (applied next (call done))
      ]
    ]
  ]
    where
      call :
          {b : Bool}
          → (try_apply apply_fn user d.op_type d.value).0 ≡ b
          → try_apply apply_fn user d.op_type d.value
            ≡ (b, (try_apply apply_fn user d.op_type d.value).1)
      call e = ap (λ x. (x, (try_apply apply_fn user d.op_type d.value).1)) e

  -- Whatever a buffer holds, `handle_data` leaves the user's state and the number of the last
  -- applied operation, or it calls the callback once: then the buffer decoded as a frame for this
  -- receiver and stream with the next operation number, and that number is counted if and only if
  -- the callback accepted.
  pub handle_data-Effect :
      (user : U) (r : Receiver) (in_buf : List ℕ) (out_cap : ℕ)
      → let (decoded, hdr, d) = decode_data in_buf clear_common in
        let (answer, r', user') = handle_data apply_fn user r in_buf out_cap in
        Effect user r decoded hdr d r'.last_applied_op_id user'
  unfolding handle_data
  handle_data-Effect user r in_buf out_cap =
      let (decoded, hdr, d) = decode_data in_buf clear_common in
      elim (Bool-cases decoded) [
        | inr bad ↦ rw (bad, handle_data) untouched
        | inl good ↦ elim (Option-cases (refuse_data r hdr d out_cap)) [
          | inl passed ↦
              rw (good, passed, handle_data)
                (apply_data-Effect user r true hdr d out_cap
                  (refuse_data-IsNext r hdr d out_cap passed))
          | inr (e, refused) ↦
              rw (good, refused, handle_data)
                (let same = refuse_data-last r hdr d out_cap refused in rw same untouched)
        ]
      ]

-- What no frame changes.
pub handle_data-same :
    {U : Type 0} (apply_fn : Option (ApplyFn U)) (user : U) (r : Receiver) (in_buf : List ℕ)
    (out_cap : ℕ)
    → let (answer, r', user') = handle_data apply_fn user r in_buf out_cap in
      (r'.receiver_id ≡ r.receiver_id)
      × (r'.stream_id ≡ r.stream_id)
      × (r'.expected_sender_id ≡ r.expected_sender_id)
unfolding handle_data refuse_data apply_data answer_nack answer_ack room_for
handle_data-same apply_fn user r in_buf out_cap = ground arith
