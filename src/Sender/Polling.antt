-- ===== src/Sender/Polling.antt =====
-- The rounds of a poll: a skipped slot changes nothing that a later frame depends on, and the
-- round that sends makes the offer.
use num8_lup.Base.{
  ℕ, zero, suc, ◌+◌, ◌%◌, ◌<◌, ◌≡◌, ◌⊎◌, refl, sym, ◌∙◌, ap, subst, arith, true, false, not, ◌||◌,
  ◌==◌, Option, none, some, List, [], ◌∷◌, length, get_or, inl, inr, Bool-cases, get_or-set_self,
  length-set,
}
use num8_lup.Base.Words.{u8, u32}
use num8_lup.Sender.Types.{Slot, Sender, slot_at, put_slot, next_op_id, zero_slot}
use num8_lup.Sender.Log.{wrap, sender_reclaim_history}
use num8_lup.Sender.Transmit.{
  data_payload, Visit, skipped, stopped, sent, transmit, retry, visit, poll_loop, poll_tx,
}
use num8_lup.Sender.Inv.{Inv, slot_at-SlotOk, reclaim-Inv}
use num8_lup.Sender.TransmitInv.{waiting_inside, visit-Inv, sender_after}
use num8_lup.Sender.Offer.{Kept, Kept-put, Kept-trans, Offer, transmit_sent}

Kept-refl : (s : Sender) → Kept s s
Kept-refl s = record {
  sender_id = refl;
  stream_id = refl;
  oldest = refl;
  latest = refl;
  find = λ id. refl;
  receiver = λ i. refl;
  acked = λ i. refl;
  active = λ i. refl;
}

-- An offer of a sender is one of any sender that it keeps.
Offer-Kept :
    {s s1 : Sender} {out_cap i : ℕ} {f : List ℕ} {t : ℕ} {s' : Sender}
    → Kept s s1
    → s1.seq ≡ s.seq
    → Offer s1 out_cap i f t s'
    → Offer s out_cap i f t s'
unfolding data_payload
Offer-Kept {s} {s1} {out_cap} {i} {f} {t} {s'} k q o = record {
  op = o.op;
  active = sym (k.active i) ∙ o.active;
  for_slot = o.for_slot ∙ k.receiver i;
  found = rw (sym (k.find (next_op_id (slot_at s i))), sym (k.acked i)) o.found;
  made = rw (sym k.sender_id, sym k.stream_id, sym q) o.made;
  waits = o.waits;
  inflight = o.inflight ∙ ap (λ n. u32 (n + 1)) (k.acked i);
  kept = Kept-trans k o.kept;
}

-- A round that skips its slot leaves the sender, or gives the slot up.
visit_skipped_is :
    (s : Sender) (i out_cap now_ms : ℕ) {s' : Sender}
    → visit s i out_cap now_ms ≡ skipped s'
    → (s' ≡ s)
      ⊎ (s'
          ≡ put_slot s i (record (slot_at s i) {
            waiting_ack = false;
            inflight_op_id = 0;
            retries = 0;
            exhausted = true;
          }))
unfolding visit retry transmit
visit_skipped_is s i out_cap now_ms e = ground arith

visit_skipped :
    (s : Sender) (i out_cap now_ms : ℕ) {s' : Sender}
    → visit s i out_cap now_ms ≡ skipped s'
    → Kept s s' × (s'.seq ≡ s.seq)
visit_skipped s i out_cap now_ms e = elim (visit_skipped_is s i out_cap now_ms e) [
  | inl same ↦ rw same (Kept-refl s, refl)
  | inr gone ↦ rw gone (Kept-put s i s.seq s.poll_cursor _ refl refl refl, refl)
]

retry_sent :
    {s : Sender} (i out_cap now_ms : ℕ) {f : List ℕ} {t : ℕ} {s' : Sender}
    → Inv s
    → (slot_at s i).waiting_ack ≡ true
    → retry s i out_cap now_ms ≡ sent f t s'
    → Offer s out_cap i f t s'
unfolding retry
retry_sent {s} i out_cap now_ms {f} {t} {s'} v waits e =
    Offer-Kept (Kept-put s i s.seq s.poll_cursor y refl refl refl) refl (
      transmit_sent (put_slot s i y) i (slot_at s i).inflight_op_id now_ms (λ n. n)
        (rw (length-set s.receivers i y) inside) (rw put ok.0) (rw put ok.1) out_cap sends)
  where
    inside : i < length s.receivers
    inside = waiting_inside s.receivers i waits

    y : Slot
    y = record (slot_at s i) { retries = u8 ((slot_at s i).retries + 1) }

    put : slot_at (put_slot s i y) i ≡ y
    put = get_or-set_self s.receivers i y zero_slot inside

    ok : ((slot_at s i).active ≡ true) × ((slot_at s i).inflight_op_id ≡ next_op_id (slot_at s i))
    ok = let h = (slot_at-SlotOk i v).0 waits in (h.0, h.1)

    sends :
        transmit (put_slot s i y) i (slot_at s i).inflight_op_id out_cap now_ms (λ x. x)
        ≡ sent f t s'
    sends = ground arith

-- Only a slot of the table is active.
pub active_inside : (xs : List Slot) (i : ℕ) → (get_or xs i zero_slot).active ≡ true → i < length xs
active_inside [] i w = cc
active_inside (x ∷ xs) zero w = omega arith
active_inside (x ∷ xs) (suc i) w = let h = active_inside xs i w in omega arith

-- A round that sends.
visit_sent :
    {s : Sender} (i out_cap now_ms : ℕ) {f : List ℕ} {t : ℕ} {s' : Sender}
    → Inv s
    → visit s i out_cap now_ms ≡ sent f t s'
    → Offer s out_cap i f t s'
unfolding visit
visit_sent {s} i out_cap now_ms {f} {t} {s'} v e =
    let x : Slot = slot_at s i in
    elim (Bool-cases (not x.active || x.exhausted)) [
      | inl idle ↦ absurd (ground arith)
      | inr busy ↦ elim (Bool-cases x.waiting_ack) [
        | inl waits ↦ retry_sent i out_cap now_ms v waits (ground arith)
        | inr fresh ↦
            let on : x.active ≡ true = ground arith in
            transmit_sent s i (next_op_id x) now_ms (λ n. 0) (active_inside s.receivers i on) on
              refl out_cap (ground arith)
      ]
    ]

pub poll_loop_sent :
    (n k start : ℕ) {s : Sender} (out_cap now_ms : ℕ) {f : List ℕ} {t : ℕ} {s' : Sender}
    → Inv s
    → poll_loop n k start s out_cap now_ms ≡ (some (f, t), s')
    → (i : ℕ) × Offer s out_cap i f t s'
unfolding poll_loop
poll_loop_sent zero k start out_cap now_ms v e = absurd (ground arith)
poll_loop_sent (suc n) k start {s} out_cap now_ms {f} {t} {s'} v e =
    go (visit s i out_cap now_ms) refl e
      (λ s1 w e'. poll_loop_sent n (k + 1) start {s = s1} out_cap now_ms w e')
  where
    i : ℕ
    i = wrap (u32 (start + k)) s.receiver_capacity

    go :
        (r : Visit)
        → visit s i out_cap now_ms ≡ r
        → (elim r as (λ x. Option (List ℕ × ℕ) × Sender) [
          | skipped s1 ↦ poll_loop n (k + 1) start s1 out_cap now_ms
          | stopped s1 ↦ (none, s1)
          | sent frame target s1 ↦ (some (frame, target), s1)
        ])
          ≡ (some (f, t), s')
        → ((s1 : Sender)
            → Inv s1
            → poll_loop n (k + 1) start s1 out_cap now_ms ≡ (some (f, t), s')
            → (j : ℕ) × Offer s1 out_cap j f t s')
        → (j : ℕ) × Offer s out_cap j f t s'
    go (skipped s1) e1 e2 rest =
        let kept = visit_skipped s i out_cap now_ms e1 in
        let (j, o) =
          rest s1 (subst (λ r. Inv (sender_after r)) e1 (visit-Inv i out_cap now_ms v)) e2 in
        (j, Offer-Kept kept.0 kept.1 o)
    go (stopped s1) e1 e2 rest = cc
    go (sent f1 t1 s1) e1 e2 rest = (i, visit_sent i out_cap now_ms v (e1 ∙ ground arith))

-- What a poll sends is an offer of the sender after reclaiming.
pub poll_tx_sent :
    {s : Sender} (now_ms out_cap : ℕ) {f : List ℕ} {t : ℕ} {s' : Sender}
    → Inv s
    → poll_tx s now_ms out_cap ≡ (some (f, t), s')
    → (i : ℕ) × Offer (sender_reclaim_history s) out_cap i f t s'
unfolding poll_tx
poll_tx_sent {s} now_ms out_cap {f} {t} {s'} v e =
    elim (Bool-cases ((sender_reclaim_history s).receiver_capacity == 0)) [
      | inl empty ↦ absurd (ground arith)
      | inr some_slots ↦
          let r = sender_reclaim_history s in
          poll_loop_sent r.receiver_capacity 0 (r.poll_cursor % r.receiver_capacity) out_cap now_ms
            (reclaim-Inv v) (ground arith)
    ]
