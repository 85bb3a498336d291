-- ===== src/Session/Delivery.antt =====
-- One cycle: the sender polls, the receiver applies and answers, the sender takes the answer.
use num8_lup.Base.{
  ℕ, ◌+◌, ◌≤◌, ◌≡◌, ◌≢◌, ◌⊎◌, sym, ◌∙◌, ap, subst, arith, true, false, Option, some, List, get_or,
  length, get_or-set_self,
}
use num8_lup.Op.{
  clear_common, CommonHeader, DataPayload, msg_ack, IsData, encode_data, decode_data, decode_ack,
  validate_common_header, header_fits, decode_common_header,
}
use num8_lup.Op.Shape.{header_of}
use num8_lup.Sender.{
  Slot, Sender, slot_at, put_slot, next_op_id, zero_slot, sender_reclaim_history, poll_tx,
  handle_rx, with_slot, on_ack, is_for_slot, find_slot, data_payload,
}
use num8_lup.Sender.Reclaim.{reclaim-Reclaimed}
use num8_lup.Sender.Inv.{Inv, reclaim-Inv}
use num8_lup.Sender.TransmitInv.{find_op_range}
use num8_lup.Sender.Offer.{Offer}
use num8_lup.Sender.Polling.{poll_tx_sent, active_inside}
use num8_lup.Sender.Unique.{Unique, find_slot_at, Kept-Unique}
use num8_lup.Session.Offers.{IsSender, reclaim-IsSender, offer_op}
use num8_lup.Receiver.{Receiver, ApplyFn, try_apply, handle_data, count_frame}
use num8_lup.Receiver.Answers.{IsReceiver, handle_data_next}
use num8_lup.Op.RoundTrip.{decode_data-encode_data}

-- An accepted ACK frame is 18 bytes with the type in byte 1.
ack_type :
    (a : List ℕ) (h : CommonHeader)
    → (decode_ack a h).0 ≡ true
    → (length a ≡ 18) × (get_or a 1 0 ≡ msg_ack)
unfolding decode_ack validate_common_header header_fits decode_common_header
ack_type a h e = ground arith

-- An acknowledgement of the operation in flight moves the receiver's slot on.
abbrev pub acknowledged : Slot → Slot
acknowledged slot = record slot {
  last_acked_op_id = slot.inflight_op_id;
  waiting_ack = false;
  inflight_op_id = 0;
  retries = 0;
  exhausted = false;
}

-- An ACK that decodes with the ids of an active slot, found under its receiver, with the sender's
-- stream and the number in flight, is accepted: the slot takes that number as acknowledged and is
-- free for the next one, and the log is reclaimed.
pub handle_rx_ack :
    (s : Sender) (i now_ms q : ℕ) (a : List ℕ)
    → (slot_at s i).active ≡ true
    → find_slot s.receivers (slot_at s i).receiver_id ≡ some i
    → (slot_at s i).waiting_ack ≡ true
    → (slot_at s i).inflight_op_id ≢ 0
    → decode_ack a clear_common ≡ (
      true,
      header_of msg_ack (slot_at s i).receiver_id s.sender_id q,
      record { stream_id = s.stream_id; ack_op_id = (slot_at s i).inflight_op_id },
    )
    → handle_rx s now_ms a
      ≡ (true, sender_reclaim_history (put_slot s i (acknowledged (slot_at s i))))
unfolding handle_rx with_slot on_ack is_for_slot
handle_rx_ack s i now_ms q a active found waits used decoded =
    let shape = ack_type a clear_common (ap (λ x. x.0) decoded) in ground (arith, shape)

-- The receiver of slot `i`: the ids and the stream fit, and it has applied what is acknowledged.
pub record IsPeer (s : Sender) (i : ℕ) (r : Receiver) : Type 0 where
  pub ok : IsReceiver r
  pub id : r.receiver_id ≡ (slot_at s i).receiver_id
  pub stream : r.stream_id ≡ s.stream_id
  pub knows : (r.expected_sender_id ≡ 0) ⊎ (r.expected_sender_id ≡ s.sender_id)
  pub level : r.last_applied_op_id ≡ (slot_at s i).last_acked_op_id

module _ {U : Type 0} (apply_fn : Option (ApplyFn U)) (user : U) (r : Receiver) where
  -- The cycle's result: the receiver has applied one operation more, and the sender knows it.
  abbrev pub Cycle : U → Sender → ℕ → List ℕ → ℕ → ℕ → Type 0
  Cycle u s' i f ack_cap later =
      (a : List ℕ) × (handle_data apply_fn user r f ack_cap
        ≡ (some a, record (count_frame r) { last_applied_op_id = r.last_applied_op_id + 1 }, u))
      × ((handle_rx s' later a).0 ≡ true)
      × ((slot_at (handle_rx s' later a).1 i).last_acked_op_id ≡ r.last_applied_op_id + 1)
      × ((slot_at (handle_rx s' later a).1 i).waiting_ack ≡ false)

  Offer-Cycle :
      {user' : U} {s s' : Sender} {i t out_cap : ℕ} {f : List ℕ} (ack_cap later : ℕ)
      → Inv s
      → IsSender s
      → Unique s.receivers
      → Offer s out_cap i f t s'
      → IsPeer s i r
      → 22 ≤ ack_cap
      → let d = (decode_data f clear_common).2 in
        try_apply apply_fn user d.op_type d.value ≡ (true, user') → Cycle user' s' i f ack_cap later
  unfolding data_payload
  Offer-Cycle {user'} {s} {s'} {i} {t} {out_cap} {f} ack_cap later v w unique o peer room accepts =
      let (a, answer, decoded) =
        handle_data_next apply_fn user peer.ok out_cap s.sender_id s.seq p w.id w.seq p_ids made
          peer.knows (sym peer.stream) ack_cap room level accepted in
      finish a answer decoded
    where
      p : DataPayload
      p = data_payload s o.op

      number : o.op.op_id ≡ next_op_id (slot_at s i)
      number = (offer_op v o.found).1

      next : next_op_id (slot_at s i) ≡ (slot_at s i).last_acked_op_id + 1
      next =
          omega
            (arith, find_op_range s (next_op_id (slot_at s i)) o.found, v.log.positive, w.acked i)

      level : o.op.op_id ≡ r.last_applied_op_id + 1
      level = number ∙ next ∙ ap (λ n. n + 1) (sym peer.level)

      p_ids : IsData p
      p_ids = (w.stream, omega (arith, number))

      made : encode_data out_cap s.sender_id r.receiver_id s.seq p ≡ some f
      made = rw (peer.id, sym o.for_slot) o.made

      holds : (decode_data f clear_common).2 ≡ p
      holds =
          ap (λ x. x.2)
            (decode_data-encode_data out_cap s.sender_id r.receiver_id s.seq clear_common
              (w.id, peer.ok.id, w.seq) p p_ids made).2

      accepted : try_apply apply_fn user p.op_type p.value ≡ (true, user')
      accepted =
          subst (λ d. try_apply apply_fn user d.op_type d.value ≡ (true, user')) holds accepts

      found : find_slot s'.receivers (slot_at s' i).receiver_id ≡ some i
      found = find_slot_at s'.receivers i (Kept-Unique o.kept unique) (o.kept.active i ∙ o.active)

      after :
          slot_at (sender_reclaim_history (put_slot s' i (acknowledged (slot_at s' i)))) i
          ≡ acknowledged (slot_at s' i)
      after =
          ap (λ l. get_or l i zero_slot)
            (reclaim-Reclaimed (put_slot s' i (acknowledged (slot_at s' i)))).receivers
          ∙ get_or-set_self s'.receivers i _ zero_slot
              (active_inside s'.receivers i (o.kept.active i ∙ o.active))

      finish :
          (a : List ℕ)
          → handle_data apply_fn user r f ack_cap
            ≡ (some a, record (count_frame r) { last_applied_op_id = p.op_id }, user')
          → decode_ack a clear_common ≡ (
            true,
            header_of msg_ack r.receiver_id s.sender_id r.seq,
            record { stream_id = r.stream_id; ack_op_id = p.op_id },
          )
          → Cycle user' s' i f ack_cap later
      finish a answer decoded =
          let took =
            handle_rx_ack s' i later r.seq a (o.kept.active i ∙ o.active) found o.waits
              (rw o.inflight (omega (arith, next)))
              (rw
                (
                  o.kept.receiver i,
                  sym peer.id,
                  o.kept.sender_id,
                  o.kept.stream_id,
                  sym peer.stream,
                  o.inflight,
                  sym number,
                )
                decoded) in
          (
            a,
            rw (sym level) answer,
            ap (λ x. x.0) took,
            ap (λ x. (slot_at x.1 i).last_acked_op_id) took
                ∙ ap (λ x. x.last_acked_op_id) after
                ∙ o.inflight
                ∙ sym number
                ∙ level,
            ap (λ x. (slot_at x.1 i).waiting_ack) took ∙ ap (λ x. x.waiting_ack) after,
          )

  -- When a sender in order, with fields in the ranges of their C types and no two active slots for
  -- one receiver, polls and sends a frame for the active slot `i`, and the receiver of that slot
  -- (its ids and stream fit) has applied what the slot has acknowledged and its callback accepts
  -- the operation of the frame, then the receiver answers (22 bytes of buffer are enough) and
  -- counts one operation more, and the sender accepts the answer, whereupon the slot has
  -- acknowledged that operation and waits no more.
  pub poll_tx-Cycle :
      {user' : U} {s s' : Sender} {t : ℕ} {f : List ℕ} (i now_ms out_cap ack_cap later : ℕ)
      → Inv s
      → IsSender s
      → Unique s.receivers
      → poll_tx s now_ms out_cap ≡ (some (f, t), s')
      → (slot_at s i).active ≡ true
      → t ≡ (slot_at s i).receiver_id
      → IsPeer s i r
      → 22 ≤ ack_cap
      → let d = (decode_data f clear_common).2 in
        try_apply apply_fn user d.op_type d.value ≡ (true, user') → Cycle user' s' i f ack_cap later
  poll_tx-Cycle {user'} {s} {s'} {t} {f} i now_ms out_cap ack_cap later v w unique polled active
        target peer room accepts =
      let (j, o) = poll_tx_sent now_ms out_cap v polled in
      let same = reclaim-Reclaimed s in
      let slot : slot_at (sender_reclaim_history s) j ≡ slot_at s j =
        ap (λ l. get_or l j zero_slot) same.receivers in
      let here : j ≡ i =
        unique j i (rw (sym slot) o.active) active (rw (sym slot) (sym o.for_slot ∙ target)) in
      Offer-Cycle ack_cap later (reclaim-Inv v) (reclaim-IsSender w) (rw same.receivers unique)
        (subst (λ k. Offer (sender_reclaim_history s) out_cap k f t s') here o)
        (record {
          ok = peer.ok;
          id = rw same.receivers peer.id;
          stream = rw same.stream_id peer.stream;
          knows = rw same.sender_id peer.knows;
          level = rw same.receivers peer.level;
        })
        room accepts
