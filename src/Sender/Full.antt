-- ===== src/Sender/Full.antt =====
-- When `enqueue_op` of src/num8lora_sender.c finds no place.
use num8_lup.Base.{
  ℕ, ◌+◌, ◌≤◌, ◌<◌, ◌≡◌, ◌⊎◌, inl, inr, arith, true, ◌==◌, leb, none, some, List, [], ◌∷◌,
  Bool-cases,
}
use num8_lup.Sender.Types.{Slot, Sender, max_value}
use num8_lup.Sender.Log.{sender_active_floor, sender_reclaim_history, drop_below, enqueue_op}
use num8_lup.Sender.Reclaim.{
  NoneNeeds, SomeNeeds, NoneNeeds-le, sender_active_floor-le, sender_active_floor-NoneNeeds,
  sender_active_floor-SomeNeeds, reclaim-Reclaimed,
}
use num8_lup.Sender.Inv.{Inv}
use num8_lup.Sender.Enqueue.{IsOpType}

-- Every place is taken, and there are none, or some active receiver needs the oldest operation or
-- an earlier one.
abbrev pub IsFull : Sender → Type 0
IsFull s =
    (s.op_count ≡ s.op_capacity)
    × ((s.op_capacity ≡ 0) ⊎ (¬ NoneNeeds (s.oldest_retained_op_id + 1) s.receivers))

SomeNeeds-le : (k f : ℕ) (slots : List Slot) → NoneNeeds k slots → SomeNeeds f slots → k ≤ f
SomeNeeds-le k f [] n h = elim h [ ]
SomeNeeds-le k f (x ∷ xs) n (inl h) = omega (arith, n.0 h.0, h.1)
SomeNeeds-le k f (x ∷ xs) n (inr h) = SomeNeeds-le k f xs n.1 h

module _ {s : Sender} (v : Inv s) where
  -- A floor that is not above the oldest operation is some receiver's need.
  needed :
      sender_active_floor s ≤ s.oldest_retained_op_id
      → 0 < s.op_count
      → ¬ NoneNeeds (s.oldest_retained_op_id + 1) s.receivers
  needed low some_op n = elim (sender_active_floor-SomeNeeds s) [
    | inl e ↦ omega (arith, e, v.log.numbers, v.log.ids_left)
    | inr h ↦ omega (arith, SomeNeeds-le _ _ s.receivers n h)
  ]

  reclaim-behind : sender_active_floor s ≤ s.oldest_retained_op_id → sender_reclaim_history s ≡ s
  unfolding sender_reclaim_history
  reclaim-behind low = ground arith

  reclaim-frees :
      s.oldest_retained_op_id < sender_active_floor s
      → (sender_reclaim_history s).op_count < s.op_count
  unfolding sender_reclaim_history drop_below
  reclaim-frees high = ground (arith, sender_active_floor-le s, v.log.numbers, v.log.ids_left)

-- For a sender in order with storage, and a valid type and value, `enqueue_op` fails and changes
-- nothing if every place of the log is taken and, unless there are none, some active receiver needs
-- the oldest operation or an earlier one; otherwise it gives the operation the number behind the
-- latest one.
pub enqueue_op-IsFull :
    {s : Sender} (type value : ℕ)
    → Inv s
    → s.has_ops ≡ true
    → IsOpType type
    → value ≤ max_value
    → (IsFull s × (enqueue_op s type value ≡ (none, s)))
      ⊎ ((¬ IsFull s) × ((enqueue_op s type value).0 ≡ some (s.latest_op_id + 1)))
unfolding enqueue_op
enqueue_op-IsFull {s} type value v storage t r =
    elim (Bool-cases (leb (sender_active_floor s) s.oldest_retained_op_id)) [
      | inl low ↦
          let stays = reclaim-behind v (ground (arith, low)) in
          elim (Bool-cases (leb s.op_capacity s.op_count)) [
            | inl full ↦ inl (all full (ground (arith, low)), ground (arith, stays))
            | inr room ↦
                inr ((λ f. ground (arith, room, f.0)), ground (arith, stays, room, v.log.ids_left))
          ]
      | inr high ↦ inr (
        (λ f. more (ground (arith, high)) f.0 f.1),
        ground (
          arith,
          reclaim-frees v (ground (arith, high)),
          reclaim-Reclaimed s,
          v.log.ids_left,
          v.log.count_in,
        ),
      )
    ]
  where
    all :
        leb s.op_capacity s.op_count ≡ true
        → sender_active_floor s ≤ s.oldest_retained_op_id
        → IsFull s
    all full low = elim (Bool-cases (s.op_capacity == 0)) [
      | inl none_at_all ↦ (ground (arith, v.log.count_in), inl (ground (arith, none_at_all)))
      | inr places ↦
          (ground (arith, v.log.count_in), inr (needed v low (ground (arith, full, places))))
    ]

    more :
        s.oldest_retained_op_id < sender_active_floor s
        → s.op_count ≡ s.op_capacity
        → (s.op_capacity ≡ 0) ⊎ (¬ NoneNeeds (s.oldest_retained_op_id + 1) s.receivers)
        → ⊥
    more high taken (inl e) = omega (arith, sender_active_floor-le s, v.log.numbers, v.log.ids_left)
    more high taken (inr n) =
        n (NoneNeeds-le _ _ s.receivers (omega arith) (sender_active_floor-NoneNeeds s))
