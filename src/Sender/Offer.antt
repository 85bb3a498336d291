-- ===== src/Sender/Offer.antt =====
-- What a poll sends: the next operation of an active receiver, as the log holds it.
use num8_lup.Base.{
  ℕ, zero, suc, ◌+◌, ◌%◌, ◌<◌, ◌≡◌, refl, sym, ◌∙◌, ap, arith, true, false, some, List, [], ◌∷◌,
  length, get_or, set, inl, inr, Option-cases, get_or-set_self, length-set,
}
use num8_lup.Base.Words.{u16, u32}
use num8_lup.Op.{encode_data}
use num8_lup.Sender.Types.{SenderOp, Slot, Sender, slot_at, put_slot, next_op_id, zero_slot}
use num8_lup.Sender.Log.{find_op}
use num8_lup.Sender.Transmit.{deadline_after, data_payload, emit_data, sent, transmit}

-- What sending leaves of the sender.
pub record Kept (s s' : Sender) : Type 0 where
  pub sender_id : s'.sender_id ≡ s.sender_id
  pub stream_id : s'.stream_id ≡ s.stream_id
  pub oldest : s'.oldest_retained_op_id ≡ s.oldest_retained_op_id
  pub latest : s'.latest_op_id ≡ s.latest_op_id
  pub find : (id : ℕ) → find_op s' id ≡ find_op s id
  pub receiver : (i : ℕ) → (slot_at s' i).receiver_id ≡ (slot_at s i).receiver_id
  pub acked : (i : ℕ) → (slot_at s' i).last_acked_op_id ≡ (slot_at s i).last_acked_op_id
  pub active : (i : ℕ) → (slot_at s' i).active ≡ (slot_at s i).active

-- Replacing one slot by one with the same value of a field changes that field nowhere.
field_set :
    {B : Type 0} (field : Slot → B) (xs : List Slot) (i j : ℕ) (x : Slot)
    → field x ≡ field (get_or xs i zero_slot)
    → field (get_or (set xs i x) j zero_slot) ≡ field (get_or xs j zero_slot)
field_set field [] i j x e = refl
field_set field (y ∷ ys) zero zero x e = e
field_set field (y ∷ ys) zero (suc j) x e = refl
field_set field (y ∷ ys) (suc i) zero x e = refl
field_set field (y ∷ ys) (suc i) (suc j) x e = field_set field ys i j x e

pub Kept-put :
    (s : Sender) (i seq cursor : ℕ) (x : Slot)
    → x.receiver_id ≡ (slot_at s i).receiver_id
    → x.last_acked_op_id ≡ (slot_at s i).last_acked_op_id
    → x.active ≡ (slot_at s i).active
    → Kept s (record s { receivers = set s.receivers i x; seq = seq; poll_cursor = cursor })
unfolding find_op
Kept-put s i seq cursor x a b c = record {
  sender_id = refl;
  stream_id = refl;
  oldest = refl;
  latest = refl;
  find = λ id. refl;
  receiver = λ j. field_set (λ y. y.receiver_id) s.receivers i j x a;
  acked = λ j. field_set (λ y. y.last_acked_op_id) s.receivers i j x b;
  active = λ j. field_set (λ y. y.active) s.receivers i j x c;
}

pub Kept-trans : {a b c : Sender} → Kept a b → Kept b c → Kept a c
Kept-trans k l = record {
  sender_id = l.sender_id ∙ k.sender_id;
  stream_id = l.stream_id ∙ k.stream_id;
  oldest = l.oldest ∙ k.oldest;
  latest = l.latest ∙ k.latest;
  find = λ id. l.find id ∙ k.find id;
  receiver = λ i. l.receiver i ∙ k.receiver i;
  acked = λ i. l.acked i ∙ k.acked i;
  active = λ i. l.active i ∙ k.active i;
}

-- The frame that slot `i` of `s` is due: for its receiver, with the operation that follows the
-- last acknowledged one. Afterwards the slot waits for its acknowledgement.
pub record Offer (s : Sender) (out_cap i : ℕ) (f : List ℕ) (target : ℕ) (s' : Sender) : Type 0 where
  pub op : SenderOp
  pub active : (slot_at s i).active ≡ true
  pub for_slot : target ≡ (slot_at s i).receiver_id
  pub found : find_op s (next_op_id (slot_at s i)) ≡ some op
  pub made : encode_data out_cap s.sender_id target s.seq (data_payload s op) ≡ some f
  pub waits : (slot_at s' i).waiting_ack ≡ true
  pub inflight : (slot_at s' i).inflight_op_id ≡ next_op_id (slot_at s i)
  pub kept : Kept s s'

-- The sender behind `emit_data` and behind `transmit`, when they send.
module _ (s : Sender) (i op_id now_ms : ℕ) (g : ℕ → ℕ) where
  abbrev emitted : Sender
  emitted =
      put_slot (record s { seq = u16 (s.seq + 1) }) i
        (record (slot_at s i) {
          inflight_op_id = op_id;
          waiting_ack = true;
          exhausted = false;
          due_at_ms = deadline_after now_ms s.ack_timeout_ms;
        })

  abbrev transmitted : Sender
  transmitted =
      record (put_slot emitted i
        (record (slot_at emitted i) { retries = g (slot_at emitted i).retries })) {
          poll_cursor = u32 (i + 1) % s.receiver_capacity;
        }

  transmit_found :
      (out_cap : ℕ) {op : SenderOp} {f : List ℕ} {t : ℕ} {s' : Sender}
      → find_op s op_id ≡ some op
      → transmit s i op_id out_cap now_ms (λ x. record x { retries = g x.retries }) ≡ sent f t s'
      → (encode_data out_cap s.sender_id (slot_at s i).receiver_id s.seq (data_payload s op)
          ≡ some f)
        × (t ≡ (slot_at emitted i).receiver_id)
        × (s' ≡ transmitted)
  unfolding transmit emit_data
  transmit_found out_cap found e = ground arith

  transmit_emits :
      (out_cap : ℕ) {f : List ℕ} {t : ℕ} {s' : Sender}
      → transmit s i op_id out_cap now_ms (λ x. record x { retries = g x.retries }) ≡ sent f t s'
      → (op : SenderOp) × (find_op s op_id ≡ some op)
        × (encode_data out_cap s.sender_id (slot_at s i).receiver_id s.seq (data_payload s op)
            ≡ some f)
        × (t ≡ (slot_at emitted i).receiver_id)
        × (s' ≡ transmitted)
  unfolding transmit emit_data
  transmit_emits out_cap e = elim (Option-cases (find_op s op_id)) [
    | inl absent ↦ absurd (ground arith)
    | inr (op, found) ↦ let h = transmit_found out_cap found e in (op, found, h.0, h.1, h.2)
  ]

  module _ (inside : i < length s.receivers) (active : (slot_at s i).active ≡ true)
      (next : op_id ≡ next_op_id (slot_at s i)) (out_cap : ℕ) where
    put : slot_at emitted i ≡ record (slot_at s i) {
      inflight_op_id = op_id;
      waiting_ack = true;
      exhausted = false;
      due_at_ms = deadline_after now_ms s.ack_timeout_ms;
    }
    put = get_or-set_self s.receivers i _ zero_slot inside

    put_last :
        slot_at transmitted i
        ≡ record (slot_at emitted i) { retries = g (slot_at emitted i).retries }
    put_last =
        get_or-set_self emitted.receivers i _ zero_slot (rw (length-set s.receivers i) inside)

    pub transmit_sent :
        {f : List ℕ} {t : ℕ} {s' : Sender}
        → transmit s i op_id out_cap now_ms (λ x. record x { retries = g x.retries }) ≡ sent f t s'
        → Offer s out_cap i f t s'
    transmit_sent e =
        let (op, found, made, to, after) = transmit_emits out_cap e in
        let to_slot = to ∙ ap (λ x. x.receiver_id) put in
        rw (to_slot, after)
          (record {
            op = op;
            active = active;
            for_slot = refl;
            found = rw (sym next) found;
            made = made;
            waits = ap (λ x. x.waiting_ack) put_last ∙ ap (λ x. x.waiting_ack) put;
            inflight = ap (λ x. x.inflight_op_id) put_last ∙ ap (λ x. x.inflight_op_id) put ∙ next;
            kept =
                Kept-trans (Kept-put s i (u16 (s.seq + 1)) s.poll_cursor _ refl refl refl)
                  (Kept-put emitted i (u16 (s.seq + 1)) _ _ refl refl refl);
          })
