-- ===== src/Receiver/Beacon.antt =====
-- What the receiver answers to a beacon of its sender.
use num8_lup.Base.{
  ℕ, ◌+◌, ◌≤◌, ◌<◌, ◌≡◌, ◌≢◌, ◌⊎◌, inl, inr, arith, true, none, some, List, leb, Bool-cases,
}
use num8_lup.Op.{
  clear_common, BeaconPayload, RequestPayload, msg_beacon, msg_request, AreIds, IsBeacon,
  encode_beacon, decode_beacon, encode_request, decode_request, emit, frame_len,
}
use num8_lup.Op.Shape.{header_of, frame}
use num8_lup.Op.Payload.{two_words, encode_beacon_inv}
use num8_lup.Op.RoundTrip.{decode_beacon-encode_beacon, decode_request-encode_request}
use num8_lup.Receiver.Defs.{Receiver, handle_beacon, count_frame}
use num8_lup.Receiver.Answers.{IsReceiver}

encode_request_answers :
    (cap s r q : ℕ) (p : RequestPayload)
    → 18 ≤ cap
    → s ≢ 0
    → r ≢ 0
    → p.stream_id ≢ 0
    → p.next_needed_op_id ≢ 0
    → encode_request cap s r q p
      ≡ some (frame msg_request s r q (two_words p.stream_id p.next_needed_op_id))
unfolding encode_request emit frame_len
encode_request_answers cap s r q p room s_used r_used stream op = ground arith

-- A beacon that sender `s` made for the receiver's stream.
module _ {r : Receiver} (v : IsReceiver r) (cap s q : ℕ) (p : BeaconPayload) {f : List ℕ}
    (ids : AreIds s 0 q) (p_ids : IsBeacon p) (made : encode_beacon cap s q p ≡ some f)
    (known : (r.expected_sender_id ≡ 0) ⊎ (r.expected_sender_id ≡ s))
    (stream : p.stream_id ≡ r.stream_id) (out_cap : ℕ) where
  abbrev wanted : RequestPayload
  wanted = record { stream_id = r.stream_id; next_needed_op_id = r.last_applied_op_id + 1 }

  decoded : decode_beacon f clear_common ≡ (true, header_of msg_beacon s 0 q, p)
  decoded = (decode_beacon-encode_beacon cap s q clear_common p ids p_ids made).2

  -- To a beacon that a sender it expects made in its stream, in the ranges of the C types, with a
  -- number beyond the last applied one, the receiver answers (with 18 bytes of buffer) a REQUEST
  -- that decodes with the next number.
  pub handle_beacon_behind :
      r.last_applied_op_id < p.latest_op_id
      → 18 ≤ out_cap
      → (a : List ℕ) × (handle_beacon r f out_cap ≡ (some a, count_frame r))
        × (decode_request a clear_common ≡ (
          true,
          header_of msg_request r.receiver_id s r.seq,
          record { stream_id = r.stream_id; next_needed_op_id = r.last_applied_op_id + 1 },
        ))
  unfolding handle_beacon
  handle_beacon_behind behind room =
      let request =
        encode_request_answers out_cap r.receiver_id s r.seq wanted room v.id_used
          (encode_beacon_inv cap s q p made).1 v.stream_used (omega arith) in
      (
        _,
        ground (arith, decoded, request, p_ids.1),
        (decode_request-encode_request out_cap r.receiver_id s r.seq clear_common
            (v.id, ids.0, v.seq) wanted (v.stream, omega (arith, p_ids.1)) request).2,
      )

  -- To a beacon that a sender it expects made in its stream, in the ranges of the C types, with a
  -- number that is applied already, the receiver sends nothing and stays as it is.
  pub handle_beacon_level :
      p.latest_op_id ≤ r.last_applied_op_id → handle_beacon r f out_cap ≡ (none, r)
  unfolding handle_beacon
  handle_beacon_level level = ground (arith, decoded)

  -- To a beacon that a sender it expects made in its stream, in the ranges of the C types, the
  -- receiver sends nothing and stays as it is if the beacon's number is applied already, and
  -- otherwise answers (with 18 bytes of buffer) a REQUEST that decodes with the next number.
  pub handle_beacon_answer :
      18 ≤ out_cap
      → ((p.latest_op_id ≤ r.last_applied_op_id) × (handle_beacon r f out_cap ≡ (none, r)))
        ⊎ ((r.last_applied_op_id < p.latest_op_id)
            × ((a : List ℕ) × (handle_beacon r f out_cap ≡ (some a, count_frame r))
                × (decode_request a clear_common ≡ (
                  true,
                  header_of msg_request r.receiver_id s r.seq,
                  record { stream_id = r.stream_id; next_needed_op_id = r.last_applied_op_id + 1 },
                ))))
  handle_beacon_answer room = elim (Bool-cases (leb p.latest_op_id r.last_applied_op_id)) [
    | inl level ↦
        let le : p.latest_op_id ≤ r.last_applied_op_id = ground (arith, level) in
        inl (le, handle_beacon_level le)
    | inr behind ↦
        let lt : r.last_applied_op_id < p.latest_op_id = ground (arith, behind) in
        inr (lt, handle_beacon_behind lt room)
  ]
