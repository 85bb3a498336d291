-- ===== src/Sender/Reclaim.antt =====
-- `sender_reclaim_history`: it drops what every active receiver has acknowledged, and no more.
use num8_lup.Base.{
  ℕ, ◌+◌, ◌-◌, ◌≤◌, ◌≡◌, ◌⊎◌, inl, inr, refl, arith, Bool, true, false, ◌||◌, List, [], ◌∷◌,
  Bool-cases, drop, ltb, leb, All,
}
use num8_lup.Base.Words.{u32}
use num8_lup.Sender.Types.{Slot, Sender, next_op_id}
use num8_lup.Sender.Log.{floor_loop, sender_active_floor, sender_reclaim_history, drop_below}
use num8_lup.Sender.Ring.{contents, LogInv}
use num8_lup.Sender.LogLaws.{contents-drop_below, drop_below-LogInv}

-- No active receiver needs an operation below the number.
abbrev pub NoneNeeds : ℕ → List Slot → Type 0
NoneNeeds floor = All (λ slot. slot.active ≡ true → floor ≤ next_op_id slot)

-- Some active receiver needs exactly that operation.
abbrev pub SomeNeeds : ℕ → List Slot → Type 0
SomeNeeds floor [] = ⊥
SomeNeeds floor (slot ∷ slots) =
    ((slot.active ≡ true) × (next_op_id slot ≡ floor)) ⊎ SomeNeeds floor slots

floor_loop-le : (slots : List Slot) (f : ℕ) (any : Bool) → (floor_loop slots f any).0 ≤ f
unfolding floor_loop
floor_loop-le [] f any = omega arith
floor_loop-le (x ∷ xs) f any =
    ground (
      arith,
      floor_loop-le xs (next_op_id x) (any || x.active),
      floor_loop-le xs f (any || x.active),
    )

pub NoneNeeds-le : (a b : ℕ) (slots : List Slot) → a ≤ b → NoneNeeds b slots → NoneNeeds a slots
NoneNeeds-le a b [] h n = tt
NoneNeeds-le a b (x ∷ xs) h n = ((λ e. omega (arith, n.0 e)), NoneNeeds-le a b xs h n.1)

floor_loop-NoneNeeds :
    (slots : List Slot) (f : ℕ) (any : Bool) → NoneNeeds (floor_loop slots f any).0 slots
unfolding floor_loop
floor_loop-NoneNeeds [] f any = tt
floor_loop-NoneNeeds (x ∷ xs) f any = (
  (λ active. ground (
    arith,
    floor_loop-le xs (next_op_id x) (any || x.active),
    floor_loop-le xs f (any || x.active),
  )),
  floor_loop-NoneNeeds xs _ _,
)

floor_loop-SomeNeeds :
    (slots : List Slot) (f : ℕ) (any : Bool)
    → ((floor_loop slots f any).0 ≡ f) ⊎ SomeNeeds (floor_loop slots f any).0 slots
unfolding floor_loop
floor_loop-SomeNeeds [] f any = inl refl
floor_loop-SomeNeeds (x ∷ xs) f any = ground (
  arith,
  floor_loop-SomeNeeds xs (next_op_id x) (any || x.active),
  floor_loop-SomeNeeds xs f (any || x.active),
)

floor_loop-busy : (slots : List Slot) (f : ℕ) → (floor_loop slots f true).1 ≡ true
unfolding floor_loop
floor_loop-busy [] f = refl
floor_loop-busy (x ∷ xs) f = floor_loop-busy xs _

floor_loop_idle :
    (slots : List Slot) (f : ℕ) (any : Bool)
    → (floor_loop slots f any).1 ≡ false
    → (floor_loop slots f any).0 ≡ f
unfolding floor_loop
floor_loop_idle [] f any h = refl
floor_loop_idle (x ∷ xs) f any h =
    ground
      (arith, floor_loop-busy xs (next_op_id x), floor_loop-busy xs f, floor_loop_idle xs f false)

active_floor_lem :
    (s : Sender)
    → sender_active_floor s ≡ (floor_loop s.receivers (u32 (s.latest_op_id + 1)) false).0
unfolding sender_active_floor
active_floor_lem s = ground (arith, floor_loop_idle s.receivers (u32 (s.latest_op_id + 1)) false)

pub sender_active_floor-le : (s : Sender) → sender_active_floor s ≤ u32 (s.latest_op_id + 1)
sender_active_floor-le s = rw (active_floor_lem s) (floor_loop-le s.receivers _ false)

-- No active receiver needs an operation below `sender_active_floor`.
pub sender_active_floor-NoneNeeds : (s : Sender) → NoneNeeds (sender_active_floor s) s.receivers
sender_active_floor-NoneNeeds s = rw (active_floor_lem s) (floor_loop-NoneNeeds s.receivers _ false)

-- `sender_active_floor` is the number behind the latest operation, or some active receiver needs
-- exactly that operation.
pub sender_active_floor-SomeNeeds :
    (s : Sender)
    → (sender_active_floor s ≡ u32 (s.latest_op_id + 1))
      ⊎ SomeNeeds (sender_active_floor s) s.receivers
sender_active_floor-SomeNeeds s = rw (active_floor_lem s) (floor_loop-SomeNeeds s.receivers _ false)

-- No active receiver needs an operation below `sender_active_floor`, which is the number behind
-- the latest operation unless some active receiver needs exactly that operation.
pub sender_active_floor_lem :
    (s : Sender)
    → NoneNeeds (sender_active_floor s) s.receivers
      × ((sender_active_floor s ≡ u32 (s.latest_op_id + 1))
          ⊎ SomeNeeds (sender_active_floor s) s.receivers)
sender_active_floor_lem s = (sender_active_floor-NoneNeeds s, sender_active_floor-SomeNeeds s)

module _ {s : Sender} (v : LogInv s) where
  pub reclaim-LogInv : LogInv (sender_reclaim_history s)
  unfolding sender_reclaim_history
  reclaim-LogInv = elim (Bool-cases (leb (sender_active_floor s) s.oldest_retained_op_id)) [
    | inl behind ↦ rw behind v
    | inr ahead ↦
        rw (ahead, no_clip)
          (drop_below-LogInv v _ (ground arith) (omega (arith, sender_active_floor-le s)))
  ]
    where
      no_clip : ltb (u32 (s.latest_op_id + 1)) (sender_active_floor s) ≡ false
      no_clip = ground (arith, sender_active_floor-le s)

  -- Reclaiming drops from the log in the ring exactly the operations below `sender_active_floor`.
  pub contents-reclaim :
      contents (sender_reclaim_history s)
      ≡ drop (sender_active_floor s - s.oldest_retained_op_id) (contents s)
  unfolding sender_reclaim_history
  contents-reclaim =
      ground (arith, sender_active_floor-le s, contents-drop_below v (sender_active_floor s))

-- The fields that reclaiming leaves alone, and the new start of the log.
pub record Reclaimed (s r : Sender) : Type 0 where
  pub receivers : r.receivers ≡ s.receivers
  pub receiver_capacity : r.receiver_capacity ≡ s.receiver_capacity
  pub latest : r.latest_op_id ≡ s.latest_op_id
  pub sender_id : r.sender_id ≡ s.sender_id
  pub stream_id : r.stream_id ≡ s.stream_id
  pub seq : r.seq ≡ s.seq
  pub max_retries : r.max_retries ≡ s.max_retries
  pub capacity : r.op_capacity ≡ s.op_capacity
  pub grows : s.oldest_retained_op_id ≤ r.oldest_retained_op_id
  pub stops :
      (r.oldest_retained_op_id ≡ s.oldest_retained_op_id)
      ⊎ (r.oldest_retained_op_id ≡ sender_active_floor s)

pub reclaim-Reclaimed : (s : Sender) → Reclaimed s (sender_reclaim_history s)
unfolding sender_reclaim_history drop_below
reclaim-Reclaimed s = ground (arith, sender_active_floor-le s)
