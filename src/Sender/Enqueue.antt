-- ===== src/Sender/Enqueue.antt =====
-- Appending one operation.
use num8_lup.Base.{
  ℕ, ◌+◌, ◌-◌, ◌^◌, ◌≤◌, ◌<◌, ◌≡◌, ◌⊎◌, inl, inr, refl, ◌∙◌, arith, true, not, ◌||◌, ◌==◌, leb, ltb,
  some, [], ◌∷◌, ◌++◌, drop, Bool-cases,
}
use num8_lup.Op.{op_add, op_remove}
use num8_lup.Sender.Types.{Sender, max_value}
use num8_lup.Sender.Log.{sender_active_floor, sender_reclaim_history, append_op, enqueue_op}
use num8_lup.Sender.Ring.{contents}
use num8_lup.Sender.LogLaws.{contents-append_op, append_op-LogInv, oldest-append_op}
use num8_lup.Sender.Reclaim.{contents-reclaim, reclaim-Reclaimed}
use mathlib.Core.Path.{ap₂}
use num8_lup.Sender.Inv.{Inv, SlotsOk-move, reclaim-Inv}

abbrev pub IsOpType : ℕ → Type 0
IsOpType type = (type ≡ op_add) ⊎ (type ≡ op_remove)

append_op-Inv :
    {s : Sender} (type value : ℕ)
    → Inv s
    → s.op_count < s.op_capacity
    → s.latest_op_id + 2 < 2 ^ 32
    → IsOpType type
    → value ≤ max_value
    → Inv (append_op s type value)
append_op-Inv {s} type value v room ids t r = record {
  log = append_op-LogInv v.log type value room ids t r;
  slots = rw (oldest-append_op v.log type value) (
      unfold append_op in
      SlotsOk-move s.oldest_retained_op_id s.latest_op_id s.oldest_retained_op_id _ s.max_retries
        s.receivers (omega (arith, v.log.ids_left)) (inl (omega arith)) v.slots);
  table = unfold append_op in v.table;
  small_table = unfold append_op in v.small_table;
  small_retries = unfold append_op in v.small_retries;
}

-- Room, after reclaiming.
abbrev pub HasRoom : Sender → Type 0
HasRoom s = (sender_reclaim_history s).op_count < s.op_capacity

module _ {s : Sender} (type value : ℕ) (v : Inv s) where
  -- What `enqueue_op` does with room left.
  pub enqueue_op_room :
      s.has_ops ≡ true
      → IsOpType type
      → value ≤ max_value
      → HasRoom s
      → enqueue_op s type value
        ≡ (some (s.latest_op_id + 1), append_op (sender_reclaim_history s) type value)
  unfolding enqueue_op
  enqueue_op_room storage t r room = ground (arith, reclaim-Reclaimed s, v.log.ids_left)

  -- `enqueue_op` with a valid type keeps the invariant of the sender, while two operation numbers
  -- are left within 32 bits.
  pub enqueue_op-Inv : s.latest_op_id + 2 < 2 ^ 32 → IsOpType type → Inv (enqueue_op s type value).1
  unfolding enqueue_op
  enqueue_op-Inv ids t = elim (Bool-cases (not s.has_ops || type == 0 || ltb max_value value)) [
    | inl refused ↦ rw refused v
    | inr tried ↦ elim (Bool-cases (r.op_capacity == 0 || leb r.op_capacity r.op_count)) [
      | inl full ↦ rw (tried, full) (reclaim-Inv v)
      | inr room ↦
          rw (tried, room)
            (append_op-Inv type value (reclaim-Inv v) (ground arith)
              (ground (arith, reclaim-Reclaimed s)) t (ground arith))
    ]
  ]
    where
      r : Sender
      r = sender_reclaim_history s

  -- With storage, a valid type and value, and room after reclaiming, `enqueue_op` gives the
  -- operation the number behind the latest one, and the log afterwards is the old log without the
  -- operations below the least one that an active receiver needs, with the new operation at its
  -- end.
  pub enqueue_op-contents :
      s.has_ops ≡ true
      → IsOpType type
      → value ≤ max_value
      → HasRoom s
      → let (answer, s') = enqueue_op s type value in
        (answer ≡ some (s.latest_op_id + 1))
        × (contents s'
            ≡ drop (sender_active_floor s - s.oldest_retained_op_id) (contents s)
              ++ (record { op_id = s.latest_op_id + 1; op_type = type; value = value } ∷ []))
  enqueue_op-contents storage t r room = rw (enqueue_op_room storage t r room) (
    refl,
    contents-append_op (reclaim-Inv v).log type value (ground (arith, reclaim-Reclaimed s))
        ∙ ap₂ (λ l n. l ++ (record { op_id = n + 1; op_type = type; value = value } ∷ []))
            (contents-reclaim v.log) ((reclaim-Reclaimed s).latest),
  )
