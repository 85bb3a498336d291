-- ===== src/Sender/Inv.antt =====
-- The invariant of the sender, and how reclaiming and updating a slot keep it.
use num8_lup.Base.{
  ℕ, ◌^◌, ◌≤◌, ◌<◌, ◌≡◌, ◌⊎◌, inl, inr, ◌∙◌, arith, true, List, [], ◌∷◌, length, All, All-set,
  All-get_or, length-set,
}
use num8_lup.Sender.Types.{Slot, Sender, next_op_id, slot_at, put_slot, zero_slot}
use num8_lup.Sender.Log.{sender_reclaim_history}
use num8_lup.Sender.Ring.{LogInv}
use num8_lup.Sender.Reclaim.{
  NoneNeeds, sender_active_floor-NoneNeeds, reclaim-LogInv, reclaim-Reclaimed,
}

-- A slot that waits for an acknowledgement is active, and the operation in flight is the next one
-- of its receiver and is still in the log.
abbrev pub SlotOk : ℕ → ℕ → ℕ → Slot → Type 0
SlotOk oldest latest max_retries slot =
    (slot.waiting_ack ≡ true
      → (slot.active ≡ true)
        × (slot.inflight_op_id ≡ next_op_id slot)
        × (oldest ≤ slot.inflight_op_id)
        × (slot.inflight_op_id ≤ latest))
    × (slot.retries ≤ max_retries)

abbrev pub SlotsOk : Sender → Type 0
SlotsOk s = All (SlotOk s.oldest_retained_op_id s.latest_op_id s.max_retries) s.receivers

pub record Inv (s : Sender) : Type 0 where
  pub log : LogInv s
  pub slots : SlotsOk s
  pub table : length s.receivers ≡ s.receiver_capacity
  pub small_table : s.receiver_capacity ≤ 2 ^ 31
  pub small_retries : s.max_retries < 256

-- A log that ends later and starts no later than any active receiver's need keeps each slot.
pub SlotsOk-move :
    (o l o' l' m : ℕ) (slots : List Slot)
    → l ≤ l'
    → (o' ≤ o) ⊎ NoneNeeds o' slots
    → All (SlotOk o l m) slots
    → All (SlotOk o' l' m) slots
SlotsOk-move o l o' l' m [] h n ok = tt
SlotsOk-move o l o' l' m (x ∷ xs) h (inl n) ok =
    (((λ w. ground (arith, ok.0.0 w)), ok.0.1), SlotsOk-move o l o' l' m xs h (inl n) ok.1)
SlotsOk-move o l o' l' m (x ∷ xs) h (inr n) ok =
    (((λ w. ground (arith, ok.0.0 w, n.0)), ok.0.1), SlotsOk-move o l o' l' m xs h (inr n.1) ok.1)

pub reclaim-Inv : {s : Sender} → Inv s → Inv (sender_reclaim_history s)
reclaim-Inv {s} v =
    let same = reclaim-Reclaimed s in
    record {
      log = reclaim-LogInv v.log;
      slots =
          rw (same.receivers, same.latest, same.max_retries)
            (SlotsOk-move s.oldest_retained_op_id s.latest_op_id _ s.latest_op_id s.max_retries
              s.receivers (omega arith) start v.slots);
      table = rw (same.receivers, same.receiver_capacity) v.table;
      small_table = rw same.receiver_capacity v.small_table;
      small_retries = rw same.max_retries v.small_retries;
    }
  where
    start :
        let r = sender_reclaim_history s in
        (r.oldest_retained_op_id ≤ s.oldest_retained_op_id)
        ⊎ NoneNeeds r.oldest_retained_op_id s.receivers
    start = elim ((reclaim-Reclaimed s).stops) [
      | inl e ↦ inl (omega arith)
      | inr e ↦ inr (rw e (sender_active_floor-NoneNeeds s))
    ]

-- Replacing one slot by one that is in order.
pub put_slot-Inv :
    {s : Sender} (i : ℕ) (slot : Slot)
    → Inv s
    → SlotOk s.oldest_retained_op_id s.latest_op_id s.max_retries slot
    → Inv (put_slot s i slot)
put_slot-Inv {s} i slot v ok = record {
  log = record {
    storage = v.log.storage;
    small = v.log.small;
    head_in = v.log.head_in;
    count_in = v.log.count_in;
    numbers = v.log.numbers;
    positive = v.log.positive;
    ids_left = v.log.ids_left;
    is_log = v.log.is_log;
  };
  slots = All-set _ s.receivers i slot v.slots ok;
  table = length-set s.receivers i slot ∙ v.table;
  small_table = v.small_table;
  small_retries = v.small_retries;
}

pub slot_at-SlotOk :
    {s : Sender} (i : ℕ)
    → Inv s
    → SlotOk s.oldest_retained_op_id s.latest_op_id s.max_retries (slot_at s i)
slot_at-SlotOk {s} i v =
    All-get_or (SlotOk s.oldest_retained_op_id s.latest_op_id s.max_retries) s.receivers i zero_slot
      v.slots ((λ w. cc), omega arith)
