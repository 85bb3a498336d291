-- ===== src/Sender/RegistryInv.antt =====
-- The table of receivers: lookup, and the invariant under start, registration, progress, removal.
use num8_lup.Base.{
  ℕ, zero, suc, ◌-◌, ◌*◌, ◌^◌, ◌≤◌, ◌<◌, ◌≡◌, inl, inr, refl, sym, ap, ◌∙◌, arith, true, false, not,
  ◌||◌, ◌==◌, ltb, leb, Option, none, some, List, [], ◌∷◌, get_or, length, All, Bool-cases,
  Option-cases,
}
use num8_lup.Base.Words.{u32}
use native.Mathlib.Nat.{mod-eq_of_lt}
use num8_lup.Sender.Types.{SenderOp, Slot, Sender, slot_at, zero_slot, zero_op}
use num8_lup.Sender.Log.{sender_reclaim_history}
use num8_lup.Sender.Registry.{
  Platform, find_slot, free_slot, storage_pair_is_valid, zero_elements, clear_storage, non_null,
  sender_init, register_receiver, set_receiver_progress, unregister_receiver,
}
use num8_lup.Sender.Inv.{Inv, SlotOk, reclaim-Inv, put_slot-Inv, slot_at-SlotOk}

-- A slot that is found is active, has that receiver, and lies in the table.
pub find_slot_found :
    (slots : List Slot) (rid i : ℕ)
    → find_slot slots rid ≡ some i
    → (i < length slots)
      × ((get_or slots i zero_slot).active ≡ true)
      × ((get_or slots i zero_slot).receiver_id ≡ rid)
unfolding find_slot
find_slot_found [] rid i e = cc
find_slot_found (x ∷ xs) rid zero e = ground (arith)
find_slot_found (x ∷ xs) rid (suc i) e = ground (arith, find_slot_found xs rid i)

pub free_slot_found :
    (slots : List Slot) (i : ℕ)
    → free_slot slots ≡ some i
    → (i < length slots) × ((get_or slots i zero_slot).active ≡ false)
unfolding free_slot
free_slot_found [] i e = cc
free_slot_found (x ∷ xs) zero e = ground (arith)
free_slot_found (x ∷ xs) (suc i) e = ground (arith, free_slot_found xs i)

-- Registering a receiver, at any progress, keeps the invariant of the sender.
pub register_receiver-Inv :
    {s : Sender} (receiver_id last_acked : ℕ)
    → Inv s
    → Inv (register_receiver s receiver_id last_acked).1
unfolding register_receiver
register_receiver-Inv {s} receiver_id last_acked v =
    let r : Sender = sender_reclaim_history s in
    elim (Bool-cases (not s.has_receivers || receiver_id == 0)) [
      | inl refused ↦ rw refused v
      | inr tried ↦ elim (Option-cases (find_slot r.receivers receiver_id)) [
        | inr (i, known) ↦ rw (tried, known) (reclaim-Inv v)
        | inl unknown ↦ elim (Option-cases (free_slot r.receivers)) [
          | inl full ↦ rw (tried, unknown, full) (reclaim-Inv v)
          | inr (i, free) ↦
              rw (tried, unknown, free) (put_slot-Inv i _ (reclaim-Inv v) (fresh i free))
        ]
      ]
    ]
  where
    fresh :
        (i : ℕ)
        → free_slot (sender_reclaim_history s).receivers ≡ some i
        → let r = sender_reclaim_history s in
          SlotOk r.oldest_retained_op_id r.latest_op_id r.max_retries (record (slot_at r i) {
            active = true;
            receiver_id = receiver_id;
            last_acked_op_id = last_acked;
            exhausted = false;
          })
    fresh i free = (
      (λ w. ground (arith, free_slot_found _ i free, (slot_at-SlotOk i (reclaim-Inv v)).0 w)),
      (slot_at-SlotOk i (reclaim-Inv v)).1,
    )

-- Setting a receiver's progress keeps the invariant of the sender.
pub set_receiver_progress-Inv :
    {s : Sender} (receiver_id last_acked : ℕ)
    → Inv s
    → Inv (set_receiver_progress s receiver_id last_acked).1
unfolding set_receiver_progress
set_receiver_progress-Inv {s} receiver_id last_acked v =
    elim (Option-cases (find_slot s.receivers receiver_id)) [
      | inl e ↦ rw (e, set_receiver_progress) v
      | inr (i, e) ↦
          rw (e, set_receiver_progress) (reclaim-Inv (put_slot-Inv i _ v ((λ w. cc), omega arith)))
    ]

-- Unregistering a receiver keeps the invariant of the sender.
pub unregister_receiver-Inv :
    {s : Sender} (receiver_id : ℕ) → Inv s → Inv (unregister_receiver s receiver_id).1
unfolding unregister_receiver
unregister_receiver-Inv {s} receiver_id v =
    elim (Option-cases (find_slot s.receivers receiver_id)) [
      | inl e ↦ rw (e, unregister_receiver) v
      | inr (i, e) ↦
          rw (e, unregister_receiver) (reclaim-Inv (put_slot-Inv i _ v ((λ w. cc), omega arith)))
    ]

zero_slots_ok :
    (o l m : ℕ) (cut : ℕ → Slot → Slot) (size bytes : ℕ) (slots : List Slot)
    → length slots * size ≤ bytes
    → All (SlotOk o l m) (zero_elements cut zero_slot size bytes slots)
unfolding zero_elements
zero_slots_ok o l m cut size bytes [] h = tt
zero_slots_ok o l m cut size bytes (x ∷ xs) h =
    let whole : leb size bytes ≡ true = grind arith in
    let rest : length xs * size ≤ bytes - size = grind arith in
    rw whole (((λ w. cc), omega arith), zero_slots_ok o l m cut size (bytes - size) xs rest)

-- Storage that holds as many elements as the capacity says.
abbrev pub Holds {ℓ} : {A : Type ℓ} → ℕ → Option (List A) → Type 0
Holds capacity none = capacity ≡ 0
Holds capacity (some xs) = length xs ≡ capacity

length-zero_elements {ℓ} :
    {A : Type ℓ} (cut : ℕ → A → A) (zeroed : A) (size bytes : ℕ) (xs : List A)
    → length (zero_elements cut zeroed size bytes xs) ≡ length xs
unfolding zero_elements
length-zero_elements cut zeroed size bytes [] = refl
length-zero_elements cut zeroed size bytes (x ∷ xs) =
    ap suc (length-zero_elements cut zeroed size (bytes - size) xs)

length-clear_storage {ℓ} :
    {A : Type ℓ} (cut : ℕ → A → A) (zeroed : A) (size capacity : ℕ) (buf : Option (List A))
    → Holds capacity buf
    → length (clear_storage cut zeroed size capacity buf) ≡ capacity
unfolding clear_storage
length-clear_storage cut zeroed size capacity none h = sym h
length-clear_storage cut zeroed size capacity (some xs) h = elim (Bool-cases (ltb 0 capacity)) [
  | inl used ↦ rw used (length-zero_elements cut zeroed size _ xs ∙ h)
  | inr empty ↦ rw empty h
]

clear_slots_ok :
    (o l m : ℕ) (cut : ℕ → Slot → Slot) (size capacity : ℕ) (buf : Option (List Slot))
    → Holds capacity buf
    → capacity * size < 2 ^ 32
    → All (SlotOk o l m) (clear_storage cut zero_slot size capacity buf)
unfolding clear_storage
clear_slots_ok o l m cut size capacity none h small = tt
clear_slots_ok o l m cut size capacity (some []) h small = elim (Bool-cases (ltb 0 capacity)) [
  | inl used ↦ rw used (zero_slots_ok o l m cut size (u32 (capacity * size)) [] (omega arith))
  | inr empty ↦ rw empty tt
]
clear_slots_ok o l m cut size capacity (some (x ∷ xs)) h small =
    let used : ltb 0 capacity ≡ true = ground arith in
    let all : u32 (capacity * size) ≡ capacity * size = mod-eq_of_lt small in
    rw (used, all)
      (zero_slots_ok o l m cut size (capacity * size) (x ∷ xs)
        (omega (arith, ap (λ (t : ℕ). t * size) h)))

-- A sender started on storage that holds the capacities, which the size test passes, with
-- capacities up to 2^31, an 8-bit retry limit, and an array of receivers below 4 GiB, satisfies the
-- invariant, whatever the arrays held before.
pub sender_init-Inv :
    (platform : Platform) (sender_id stream_id timeout max_retries op_cap recv_cap : ℕ)
    (ops_buf : Option (List SenderOp)) (receiver_buf : Option (List Slot))
    → Holds op_cap ops_buf
    → Holds recv_cap receiver_buf
    → storage_pair_is_valid (non_null ops_buf) op_cap platform.sizeof_op platform.size_max ≡ true
    → storage_pair_is_valid (non_null receiver_buf) recv_cap platform.sizeof_slot platform.size_max
      ≡ true
    → op_cap ≤ 2 ^ 31
    → recv_cap ≤ 2 ^ 31
    → recv_cap * platform.sizeof_slot < 2 ^ 32
    → max_retries < 256
    → Inv (
        sender_init platform sender_id stream_id timeout max_retries ops_buf op_cap receiver_buf
          recv_cap)
unfolding sender_init
sender_init-Inv platform sender_id stream_id timeout max_retries op_cap recv_cap ops_buf
      receiver_buf ho hr e f so sr small hm =
    rw (e, f)
      (record {
        log = record {
          storage =
              length-clear_storage platform.cut_op zero_op platform.sizeof_op op_cap ops_buf ho;
          small = so;
          head_in = omega arith;
          count_in = omega arith;
          numbers = omega arith;
          positive = omega arith;
          ids_left = omega arith;
          is_log = tt;
        };
        slots =
            clear_slots_ok 1 0 max_retries platform.cut_slot platform.sizeof_slot recv_cap
              receiver_buf hr small;
        table =
            length-clear_storage platform.cut_slot zero_slot platform.sizeof_slot recv_cap
              receiver_buf hr;
        small_table = sr;
        small_retries = hm;
      })

-- Registering a receiver, setting its progress and unregistering it keep the invariant of the
-- sender.
pub registry-Inv :
    {s : Sender} (receiver_id last_acked : ℕ)
    → Inv s
    → Inv (register_receiver s receiver_id last_acked).1
      × Inv (set_receiver_progress s receiver_id last_acked).1
      × Inv (unregister_receiver s receiver_id).1
registry-Inv receiver_id last_acked v = (
  register_receiver-Inv receiver_id last_acked v,
  set_receiver_progress-Inv receiver_id last_acked v,
  unregister_receiver-Inv receiver_id v,
)
