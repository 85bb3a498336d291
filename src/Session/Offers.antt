-- ===== src/Session/Offers.antt =====
-- What a receiver decodes from the frame that a poll sends.
use num8_lup.Base.{ℕ, ◌+◌, ◌-◌, ◌^◌, ◌<◌, ◌≡◌, sym, ap, arith, true, some, List, get_or}
use num8_lup.Op.{clear_common, msg_data, decode_data}
use num8_lup.Op.Shape.{header_of}
use num8_lup.Op.RoundTrip.{decode_data-encode_data}
use num8_lup.Sender.{
  SenderOp, Sender, slot_at, next_op_id, zero_op, zero_slot, find_op, sender_reclaim_history,
  data_payload, poll_tx,
}
use num8_lup.Sender.Ring.{contents}
use num8_lup.Sender.LogLaws.{find_op_lem, IsLog-get_or, length-contents}
use num8_lup.Sender.Reclaim.{reclaim-Reclaimed}
use num8_lup.Sender.Inv.{Inv, reclaim-Inv}
use num8_lup.Sender.TransmitInv.{find_op_range}
use num8_lup.Sender.Offer.{Offer}
use num8_lup.Sender.Polling.{poll_tx_sent}

-- The sender's fields hold values of their C types.
pub record IsSender (s : Sender) : Type 0 where
  pub id : s.sender_id < 2 ^ 16
  pub stream : s.stream_id < 2 ^ 32
  pub seq : s.seq < 2 ^ 16
  pub receivers : (i : ℕ) → (slot_at s i).receiver_id < 2 ^ 16
  pub acked : (i : ℕ) → (slot_at s i).last_acked_op_id < 2 ^ 32

-- The frame for operation `id` of the log `r`.
abbrev pub IsFrameOf : Sender → ℕ → ℕ → List ℕ → Type 0
IsFrameOf r target id f =
    let op = get_or (contents r) (id - r.oldest_retained_op_id) zero_op in
    decode_data f clear_common ≡ (
      true,
      header_of msg_data r.sender_id target r.seq,
      record {
        stream_id = r.stream_id;
        op_id = id;
        op_type = op.op_type;
        reserved0 = 0;
        reserved1 = 0;
        value = op.value;
      },
    )

-- The operation of an offer is the one of that number in the log.
pub offer_op :
    {r : Sender} {id : ℕ} {op : SenderOp}
    → Inv r
    → find_op r id ≡ some op
    → (op ≡ get_or (contents r) (id - r.oldest_retained_op_id) zero_op) × (op.op_id ≡ id)
offer_op {r} {id} {op} v found =
    (same, omega (arith, in_log, find_op_range r id found, ap (λ o. o.op_id) same))
  where
    same : op ≡ get_or (contents r) (id - r.oldest_retained_op_id) zero_op
    same = ground (arith, find_op_lem id v.log, find_op_range r id found)

    in_log :
        (get_or (contents r) (id - r.oldest_retained_op_id) zero_op).op_id
        ≡ r.oldest_retained_op_id + (id - r.oldest_retained_op_id)
    in_log =
        (IsLog-get_or r.oldest_retained_op_id (id - r.oldest_retained_op_id) (contents r)
          v.log.is_log
          (omega (arith, length-contents r, v.log.numbers, find_op_range r id found))).0

Offer-IsFrameOf :
    {r : Sender} {out_cap i : ℕ} {f : List ℕ} {t : ℕ} {s' : Sender}
    → Inv r
    → IsSender r
    → Offer r out_cap i f t s'
    → IsFrameOf r (slot_at r i).receiver_id (next_op_id (slot_at r i)) f
unfolding data_payload
Offer-IsFrameOf {r} {out_cap} {i} {f} {t} {s'} v w o =
    let (same, number) = offer_op v o.found in
    rw (sym same, sym number)
      (decode_data-encode_data out_cap r.sender_id (slot_at r i).receiver_id r.seq clear_common
        (w.id, w.receivers i, w.seq) (data_payload r o.op) (w.stream, omega (arith, number))
        (rw (sym o.for_slot) o.made)).2

pub reclaim-IsSender : {s : Sender} → IsSender s → IsSender (sender_reclaim_history s)
reclaim-IsSender {s} w =
    let same = reclaim-Reclaimed s in
    record {
      id = rw same.sender_id w.id;
      stream = rw same.stream_id w.stream;
      seq = rw same.seq w.seq;
      receivers = rw same.receivers w.receivers;
      acked = rw same.receivers w.acked;
    }

-- A frame that `poll_tx` sends from a sender in order, whose fields hold values of their C types,
-- is for an active slot: its target is the slot's receiver, and `decode_data` accepts it and reads
-- from it the operation that the log holds behind the slot's last acknowledged one. Afterwards the
-- slot waits for that operation.
pub poll_tx-IsFrameOf :
    {s : Sender} (now_ms out_cap : ℕ) {f : List ℕ} {t : ℕ} {s' : Sender}
    → Inv s
    → IsSender s
    → poll_tx s now_ms out_cap ≡ (some (f, t), s')
    → (i : ℕ) × ((slot_at s i).active ≡ true)
      × (t ≡ (slot_at s i).receiver_id)
      × IsFrameOf (sender_reclaim_history s) t (next_op_id (slot_at s i)) f
      × ((slot_at s' i).waiting_ack ≡ true)
      × ((slot_at s' i).inflight_op_id ≡ next_op_id (slot_at s i))
poll_tx-IsFrameOf {s} now_ms out_cap v w e =
    let r : Sender = sender_reclaim_history s in
    let (i, o) = poll_tx_sent now_ms out_cap v e in
    let slot : slot_at r i ≡ slot_at s i =
      ap (λ l. get_or l i zero_slot) (reclaim-Reclaimed s).receivers in
    (
      i,
      rw (sym slot) o.active,
      rw (sym slot) o.for_slot,
      rw (o.for_slot, sym slot) (Offer-IsFrameOf (reclaim-Inv v) (reclaim-IsSender w) o),
      o.waits,
      rw (sym slot) o.inflight,
    )
