-- ===== src/Sender/TransmitInv.antt =====
-- Polling keeps the invariant, and an operation in flight can always be sent again.
use num8_lup.Base.{
  ℕ, zero, suc, ◌+◌, ◌-◌, ◌%◌, ◌≤◌, ◌<◌, ◌≡◌, inl, inr, refl, arith, true, not, ◌||◌, ◌==◌, leb,
  ltb, Option, none, some, List, [], ◌∷◌, length, get_or, get_or-set_self, Bool-cases, Option-cases,
}
use num8_lup.Base.Words.{u8, u16, u32}
use num8_lup.Op.{encode_data}
use num8_lup.Sender.Types.{
  SenderOp, Slot, Sender, slot_at, put_slot, next_op_id, zero_slot, zero_op,
}
use num8_lup.Sender.Log.{wrap, find_op, sender_reclaim_history}
use num8_lup.Sender.Transmit.{
  data_payload, emit_data, Visit, skipped, stopped, sent, transmit, retry, visit, poll_loop,
  poll_tx,
}
use num8_lup.Sender.Ring.{contents}
use num8_lup.Sender.LogLaws.{find_op_lem, IsLog-get_or, length-contents}
use num8_lup.Sender.Inv.{Inv, SlotOk, reclaim-Inv, put_slot-Inv, slot_at-SlotOk}

pub find_op_range :
    (s : Sender) (op_id : ℕ) {op : SenderOp}
    → find_op s op_id ≡ some op
    → (s.oldest_retained_op_id ≤ op_id) × (op_id ≤ s.latest_op_id)
unfolding find_op
find_op_range s op_id e = ground arith

-- In a sender in order, the operation that a waiting slot has in flight is still in the log, under
-- its number.
pub inflight_retained :
    {s : Sender} (i : ℕ)
    → Inv s
    → (slot_at s i).waiting_ack ≡ true
    → (op : SenderOp) × (find_op s (slot_at s i).inflight_op_id ≡ some op)
      × (op.op_id ≡ (slot_at s i).inflight_op_id)
inflight_retained {s} i v w =
    let ok = (slot_at-SlotOk i v).0 w in
    let id : ℕ = (slot_at s i).inflight_op_id in
    let k : ℕ = id - s.oldest_retained_op_id in
    (
      get_or (contents s) k zero_op,
      ground (arith, find_op_lem id v.log),
      omega (
        arith,
        IsLog-get_or s.oldest_retained_op_id k (contents s) v.log.is_log,
        length-contents s,
        v.log.numbers,
      ),
    )

-- Counting a frame or moving the cursor touches nothing of the invariant.
pub counters-Inv :
    {s : Sender} (seq cursor : ℕ) → Inv s → Inv (record s { seq = seq; poll_cursor = cursor })
counters-Inv seq cursor v = record {
  log = record {
    storage = v.log.storage;
    small = v.log.small;
    head_in = v.log.head_in;
    count_in = v.log.count_in;
    numbers = v.log.numbers;
    positive = v.log.positive;
    ids_left = v.log.ids_left;
    is_log = v.log.is_log;
  };
  slots = v.slots;
  table = v.table;
  small_table = v.small_table;
  small_retries = v.small_retries;
}

emit_data-Inv :
    {s : Sender} (i op_id out_cap now_ms : ℕ)
    → Inv s
    → (slot_at s i).active ≡ true
    → op_id ≡ next_op_id (slot_at s i)
    → Inv (emit_data s i op_id out_cap now_ms).1
unfolding emit_data
emit_data-Inv {s} i op_id out_cap now_ms v active target = elim (Option-cases (find_op s op_id)) [
  | inl absent ↦ rw (absent, emit_data) v
  | inr (op, found) ↦ elim (Bool-cases (s.seq == 0xFFFF)) [
    | inl spent ↦ rw (found, spent, emit_data) v
    | inr left ↦
        elim (Option-cases
          (encode_data out_cap s.sender_id (slot_at s i).receiver_id s.seq (data_payload s op))) [
            | inl refused ↦ rw (found, left, refused, emit_data) (counters-Inv _ s.poll_cursor v)
            | inr (f, made) ↦
                rw (found, left, made, emit_data)
                  (put_slot-Inv i _ (counters-Inv (u16 (s.seq + 1)) s.poll_cursor v)
                    ((λ _. ground (arith, find_op_range s op_id found)), (slot_at-SlotOk i v).1))
          ]
  ]
]

abbrev pub sender_after : Visit → Sender
sender_after (skipped s) = s
sender_after (stopped s) = s
sender_after (sent f t s) = s

transmit-Inv :
    {s : Sender} (i op_id out_cap now_ms : ℕ) (finish : Slot → Slot)
    → ((o l m : ℕ) (x : Slot) → SlotOk o l m x → SlotOk o l m (finish x))
    → Inv s
    → (slot_at s i).active ≡ true
    → op_id ≡ next_op_id (slot_at s i)
    → Inv (sender_after (transmit s i op_id out_cap now_ms finish))
unfolding transmit
transmit-Inv {s} i op_id out_cap now_ms finish keep v active target =
    go (emit_data s i op_id out_cap now_ms) (emit_data-Inv i op_id out_cap now_ms v active target)
  where
    go :
        (e : Option (List ℕ) × Sender)
        → Inv e.1
        → Inv (
            sender_after (elim e.0 [
              | none ↦ stopped e.1
              | some frame ↦
                  sent frame
                    (slot_at e.1 i).receiver_id
                    (record (put_slot e.1 i (finish (slot_at e.1 i))) {
                      poll_cursor = u32 (i + 1) % s.receiver_capacity;
                    })
            ]))
    go (none, s') w = w
    go (some f, s') w =
        counters-Inv s'.seq _ (put_slot-Inv i _ w (keep _ _ _ _ (slot_at-SlotOk i w)))

-- Only a slot of the table waits.
pub waiting_inside :
    (xs : List Slot) (i : ℕ) → (get_or xs i zero_slot).waiting_ack ≡ true → i < length xs
waiting_inside [] i w = cc
waiting_inside (x ∷ xs) zero w = omega arith
waiting_inside (x ∷ xs) (suc i) w = let h = waiting_inside xs i w in omega arith

pub retry-Inv :
    {s : Sender} (i out_cap now_ms : ℕ)
    → Inv s
    → (slot_at s i).waiting_ack ≡ true
    → Inv (sender_after (retry s i out_cap now_ms))
unfolding retry
retry-Inv {s} i out_cap now_ms v waits = elim (Bool-cases (ltb now_ms (slot_at s i).due_at_ms)) [
  | inl early ↦ rw early v
  | inr late ↦ elim (Bool-cases (leb s.max_retries (slot_at s i).retries)) [
    | inl spent ↦ rw (late, spent) (put_slot-Inv i _ v ((λ w. cc), omega arith))
    | inr again ↦
        rw (late, again)
          (transmit-Inv i _ out_cap now_ms (λ z. z) (λ o l m z k. k)
            (put_slot-Inv i y v ((slot_at-SlotOk i v).0, ground arith))
            (rw put ((slot_at-SlotOk i v).0 waits).0) (rw put ((slot_at-SlotOk i v).0 waits).1))
  ]
]
  where
    y : Slot
    y = record (slot_at s i) { retries = u8 ((slot_at s i).retries + 1) }

    put : slot_at (put_slot s i y) i ≡ y
    put = get_or-set_self s.receivers i y zero_slot (waiting_inside s.receivers i waits)

pub visit-Inv :
    {s : Sender} (i out_cap now_ms : ℕ) → Inv s → Inv (sender_after (visit s i out_cap now_ms))
unfolding visit
visit-Inv {s} i out_cap now_ms v =
    let x : Slot = slot_at s i in
    elim (Bool-cases (not x.active || x.exhausted)) [
      | inl idle ↦ rw idle v
      | inr busy ↦ elim (Bool-cases x.waiting_ack) [
        | inl waits ↦ rw (busy, waits) (retry-Inv i out_cap now_ms v waits)
        | inr fresh ↦
            elim (Bool-cases
              (ltb s.latest_op_id (next_op_id x) || ltb (next_op_id x) s.oldest_retained_op_id)) [
                | inl none_due ↦ rw (busy, fresh, none_due) v
                | inr due ↦
                    rw (busy, fresh, due)
                      (transmit-Inv i _ out_cap now_ms _ (λ o l m y h. (h.0, omega arith)) v
                        (ground arith) refl)
              ]
      ]
    ]

pub poll_loop-Inv :
    (n k start : ℕ) (s : Sender) (out_cap now_ms : ℕ)
    → Inv s
    → Inv (poll_loop n k start s out_cap now_ms).1
unfolding poll_loop
poll_loop-Inv zero k start s out_cap now_ms v = v
poll_loop-Inv (suc n) k start s out_cap now_ms v =
    go (visit s i out_cap now_ms) (visit-Inv i out_cap now_ms v)
      (λ s' w. poll_loop-Inv n (k + 1) start s' out_cap now_ms w)
  where
    i : ℕ
    i = wrap (u32 (start + k)) s.receiver_capacity

    go :
        (r : Visit)
        → Inv (sender_after r)
        → ((s' : Sender) → Inv s' → Inv (poll_loop n (k + 1) start s' out_cap now_ms).1)
        → Inv
            (elim r as (λ x. Option (List ℕ × ℕ) × Sender) [
              | skipped s' ↦ poll_loop n (k + 1) start s' out_cap now_ms
              | stopped s' ↦ (none, s')
              | sent frame target s' ↦ (some (frame, target), s')
            ]).1
    go (skipped s') w rest = rest s' w
    go (stopped s') w rest = w
    go (sent f t s') w rest = w

-- `poll_tx` keeps the invariant of the sender.
pub poll_tx-Inv : (s : Sender) (now_ms out_cap : ℕ) → Inv s → Inv (poll_tx s now_ms out_cap).1
unfolding poll_tx
poll_tx-Inv s now_ms out_cap v =
    elim (Bool-cases ((sender_reclaim_history s).receiver_capacity == 0)) [
      | inl empty ↦ rw empty (reclaim-Inv v)
      | inr some_slots ↦
          rw some_slots
            (poll_loop-Inv _ 0 _ (sender_reclaim_history s) out_cap now_ms (reclaim-Inv v))
    ]
