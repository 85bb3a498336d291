-- ===== src/Sender/Log.antt =====
-- The log of operations in a ring: lookup, reclaiming what every receiver has, appending.
use num8_lup.Base.{
  ℕ, ◌+◌, ◌-◌, ◌%◌, Bool, true, false, not, ◌||◌, ◌&&◌, Option, none, some, List, [], ◌∷◌, ltb, leb,
  ◌==◌, if◌then◌else◌, length, get_or, set,
}
use num8_lup.Base.Words.{u32, u64}
use num8_lup.Op.{op_add, op_remove}
use num8_lup.Sender.Types.{SenderOp, Slot, Sender, zero_op, max_value, next_op_id}

-- The index behind `index >= capacity` and `index %= capacity`.
unfoldable pub wrap : ℕ → ℕ → ℕ
wrap index capacity = if leb capacity index then index % capacity else index

unfoldable pub find_op : Sender → ℕ → Option SenderOp
unfolding wrap
find_op s op_id =
    if ltb op_id s.oldest_retained_op_id || ltb s.latest_op_id op_id || s.op_count == 0
    then none
    else let offset = op_id - s.oldest_retained_op_id in
      if leb s.op_count offset || s.op_capacity == 0
      then none
      else some (get_or s.ops (wrap (u32 (s.op_head + offset)) s.op_capacity) zero_op)

-- The loop over the slots: the least operation needed so far, and whether one is active.
unfoldable pub floor_loop : List Slot → ℕ → Bool → ℕ × Bool
floor_loop [] floor any_active = (floor, any_active)
floor_loop (slot ∷ slots) floor any_active =
    floor_loop slots (if slot.active && ltb (next_op_id slot) floor then next_op_id slot else floor)
      (any_active || slot.active)

unfoldable pub sender_active_floor : Sender → ℕ
sender_active_floor s =
    let (floor, any_active) = floor_loop s.receivers (u32 (s.latest_op_id + 1)) false in
    if any_active then floor else u32 (s.latest_op_id + 1)

-- The part of `sender_reclaim_history` behind its first test, at the clipped floor.
unfoldable pub drop_below : Sender → ℕ → Sender
drop_below s floor =
    let wanted = floor - s.oldest_retained_op_id in
    let drop_count = if ltb s.op_count wanted then s.op_count else wanted in
    let op_count = s.op_count - drop_count in
    let op_head =
      u32 (s.op_head + drop_count) % (if s.op_capacity == 0 then 1 else s.op_capacity) in
    record s {
      oldest_retained_op_id = floor;
      op_head = if op_count == 0 then 0 else op_head;
      op_count = op_count;
    }

unfoldable pub sender_reclaim_history : Sender → Sender
sender_reclaim_history s =
    let floor = sender_active_floor s in
    if leb floor s.oldest_retained_op_id
    then s
    else drop_below s
        (if ltb (u32 (s.latest_op_id + 1)) floor then u32 (s.latest_op_id + 1) else floor)

-- The part of `enqueue_op` behind its tests.
unfoldable pub append_op : Sender → ℕ → ℕ → Sender
unfolding wrap
append_op s type value =
    let latest = u32 (s.latest_op_id + 1) in
    let op_head = if s.op_count == 0 then 0 else s.op_head in
    let slot_index = wrap (u32 (op_head + s.op_count)) s.op_capacity in
    record s {
      latest_op_id = latest;
      op_head = op_head;
      oldest_retained_op_id = if s.op_count == 0 then latest else s.oldest_retained_op_id;
      ops = set s.ops slot_index (record { op_id = latest; op_type = type; value = value });
      op_count = u32 (s.op_count + 1);
    }

-- `some` is the return value 1, with `*out_op_id`.
unfoldable pub enqueue_op : Sender → ℕ → ℕ → Option ℕ × Sender
enqueue_op s type value =
    if not s.has_ops || type == 0 || ltb max_value value
    then (none, s)
    else let r = sender_reclaim_history s in
      if r.op_capacity == 0 || leb r.op_capacity r.op_count
      then (none, r)
      else (some (u32 (r.latest_op_id + 1)), append_op r type value)

unfoldable pub enqueue_add : Sender → ℕ → Option ℕ × Sender
enqueue_add s value = enqueue_op s op_add value

unfoldable pub enqueue_remove : Sender → ℕ → Option ℕ × Sender
enqueue_remove s value = enqueue_op s op_remove value

-- The return value, `*out_first_op_id`, `*out_last_op_id` and the sender.
pub record Enqueued : Type 0 where
  pub status : Bool
  pub first : ℕ
  pub last : ℕ
  pub sender : Sender

-- One of the two enqueueing loops, with the local variables `first` and `last`.
unfoldable pub enqueue_each : ℕ → List ℕ → ℕ → ℕ → Sender → Enqueued
enqueue_each type [] first last s = record { status = true; first = first; last = last; sender = s }
enqueue_each type (value ∷ values) first last s =
    let (appended, s') = enqueue_op s type value in
    elim appended [
      | none ↦ record { status = false; first = first; last = last; sender = s' }
      | some op_id ↦ enqueue_each type values (if first == 0 then op_id else first) op_id s'
    ]

-- The loops that look for a value out of range.
unfoldable pub all_in_range : List ℕ → Bool
all_in_range [] = true
all_in_range (value ∷ values) = not (ltb max_value value) && all_in_range values

unfoldable pub enqueue_lists : Sender → List ℕ → List ℕ → Enqueued
enqueue_lists s remove_values add_values =
    let total_count = u64 (length remove_values + length add_values) in
    let refused : Enqueued = record { status = false; first = 0; last = 0; sender = s } in
    if total_count == 0
    then record refused { status = true }
    else if ltb 0xFFFFFFFF total_count
    then refused
    else if ltb s.op_capacity s.op_count
    then refused
    else if ltb (s.op_capacity - s.op_count) total_count
    then refused
    else if ltb 0xFFFFFFFF (u64 (s.latest_op_id + total_count))
    then refused
    else if not (all_in_range remove_values) || not (all_in_range add_values)
    then refused
    else (let removed = enqueue_each op_remove remove_values 0 0 s in
        let added = enqueue_each op_add add_values removed.first removed.last removed.sender in
        if not removed.status
        then record refused { sender = removed.sender }
        else if not added.status
        then record refused { sender = added.sender }
        else added)
