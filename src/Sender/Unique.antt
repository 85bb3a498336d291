-- ===== src/Sender/Unique.antt =====
-- No two active slots are for the same receiver, so that looking a receiver up finds its slot.
use num8_lup.Base.{
  ℕ, zero, suc, ◌<◌, ◌≡◌, ◌≢◌, sym, ◌∙◌, ap, arith, true, ◌&&◌, ◌==◌, some, none, List, [], ◌∷◌,
  get_or, length, Bool-cases, Option-cases, inl, inr, set, get_or-set_self, get_or-set_ne, not,
  ◌||◌,
}
use num8_lup.Sender.Types.{Slot, Sender, slot_at, zero_slot}
use num8_lup.Sender.Registry.{find_slot, free_slot, register_receiver}
use num8_lup.Sender.RegistryInv.{find_slot_found, free_slot_found}
use num8_lup.Sender.Log.{sender_reclaim_history}
use num8_lup.Sender.Reclaim.{reclaim-Reclaimed}
use num8_lup.Sender.Offer.{Kept}

abbrev pub Unique : List Slot → Type 0
Unique slots =
    (i j : ℕ)
    → (get_or slots i zero_slot).active ≡ true
    → (get_or slots j zero_slot).active ≡ true
    → (get_or slots i zero_slot).receiver_id ≡ (get_or slots j zero_slot).receiver_id
    → i ≡ j

-- An active slot's receiver is found.
find_slot_complete :
    (slots : List Slot) (i : ℕ)
    → (get_or slots i zero_slot).active ≡ true
    → (j : ℕ) × (find_slot slots (get_or slots i zero_slot).receiver_id ≡ some j)
unfolding find_slot
find_slot_complete [] i on = cc
find_slot_complete (x ∷ xs) zero on = (0, ground arith)
find_slot_complete (x ∷ xs) (suc i) on =
    let (j, e) = find_slot_complete xs i on in
    elim (Bool-cases (x.active && x.receiver_id == (get_or xs i zero_slot).receiver_id)) [
      | inl here ↦ (0, ground arith)
      | inr there ↦ (suc j, ground arith)
    ]

pub find_slot_at :
    (slots : List Slot) (i : ℕ)
    → Unique slots
    → (get_or slots i zero_slot).active ≡ true
    → find_slot slots (get_or slots i zero_slot).receiver_id ≡ some i
find_slot_at slots i unique on =
    let (j, e) = find_slot_complete slots i on in
    let (inside, on_j, id_j) = find_slot_found slots (get_or slots i zero_slot).receiver_id j e in
    e ∙ ap some (unique j i on_j on id_j)

pub Kept-Unique : {s s' : Sender} → Kept s s' → Unique s.receivers → Unique s'.receivers
Kept-Unique k unique = λ i j a b e.
    unique i j (sym (k.active i) ∙ a) (sym (k.active j) ∙ b) (sym (k.receiver i) ∙ e ∙ k.receiver j)

-- A slot for a receiver that no active slot is for.
set-Unique :
    (slots : List Slot) (i : ℕ) (x : Slot)
    → i < length slots
    → Unique slots
    → ((j : ℕ)
        → (get_or slots j zero_slot).active ≡ true
        → (get_or slots j zero_slot).receiver_id ≢ x.receiver_id)
    → Unique (set slots i x)
set-Unique slots i x inside unique new a b on_a on_b e = elim (Bool-cases (a == i)) [
  | inl at_a ↦ elim (Bool-cases (b == i)) [
    | inl at_b ↦ ground arith
    | inr off_b ↦ ground (
      arith,
      new b,
      get_or-set_self slots i x zero_slot inside,
      get_or-set_ne slots i b x zero_slot,
    )
  ]
  | inr off_a ↦ elim (Bool-cases (b == i)) [
    | inl at_b ↦ ground (
      arith,
      new a,
      get_or-set_self slots i x zero_slot inside,
      get_or-set_ne slots i a x zero_slot,
    )
    | inr off_b ↦ ground (
      arith,
      unique a b,
      get_or-set_ne slots i a x zero_slot,
      get_or-set_ne slots i b x zero_slot,
    )
  ]
]

-- If no two active slots are for one receiver, then none are after registering a receiver.
pub register_receiver-Unique :
    (s : Sender) (receiver_id last_acked : ℕ)
    → Unique s.receivers
    → Unique (register_receiver s receiver_id last_acked).1.receivers
unfolding register_receiver
register_receiver-Unique s receiver_id last_acked unique =
    let r : Sender = sender_reclaim_history s in
    elim (Bool-cases (not s.has_receivers || receiver_id == 0)) [
      | inl refused ↦ rw (refused, register_receiver) unique
      | inr tried ↦ elim (Option-cases (find_slot r.receivers receiver_id)) [
        | inr (i, known) ↦ rw (tried, known, register_receiver) start
        | inl unknown ↦ elim (Option-cases (free_slot r.receivers)) [
          | inl full ↦ rw (tried, unknown, full, register_receiver) start
          | inr (i, free) ↦
              rw (tried, unknown, free, register_receiver)
                (set-Unique r.receivers i _ (free_slot_found r.receivers i free).0 start
                  (new unknown))
        ]
      ]
    ]
  where
    start : Unique (sender_reclaim_history s).receivers
    start = rw (reclaim-Reclaimed s).receivers unique

    new :
        find_slot (sender_reclaim_history s).receivers receiver_id ≡ none
        → (j : ℕ) → (slot_at (sender_reclaim_history s) j).active ≡ true
        → (slot_at (sender_reclaim_history s) j).receiver_id ≢ receiver_id
    new unknown j on e =
        let (k, known) = find_slot_complete (sender_reclaim_history s).receivers j on in
        let at_id : find_slot (sender_reclaim_history s).receivers receiver_id ≡ some k =
          rw (sym e) known in
        cc
