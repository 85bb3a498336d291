-- ===== src/Tests/Sending.antt =====
-- The sender.
use num8_lup.Base.{
  ◌-◌, ◌^◌, ◌≤◌, ◌≡◌, ◌⊎◌, refl, inl, inr, arith, true, none, some, [], ◌∷◌, ◌++◌, drop, get_or,
  ltb, ◌||◌, if◌then◌else◌,
}
use num8_lup.Sender.{
  Slot, Sender, Platform, zero_op, zero_slot, slot_at, put_slot, poll_tx, handle_rx, handle_request,
  enqueue_op, enqueue_lists, all_in_range, find_op, sender_reclaim_history, sender_active_floor,
  sender_init, register_receiver, set_receiver_progress, unregister_receiver,
}
use num8_lup.Sender.Ring.{contents}
use num8_lup.Sender.LogLaws.{find_op_lem}
use num8_lup.Sender.Reclaim.{contents-reclaim, NoneNeeds, SomeNeeds, sender_active_floor_lem}
use num8_lup.Sender.Inv.{Inv}
use num8_lup.Sender.RegistryInv.{registry-Inv, sender_init-Inv}
use num8_lup.Sender.Enqueue.{enqueue_op-Inv, enqueue_op-contents}
use num8_lup.Sender.Full.{IsFull, enqueue_op-IsFull}
use num8_lup.Sender.Grown.{Grown, numbered}
use num8_lup.Sender.EnqueueLists.{enqueue_lists-Inv}
use num8_lup.Sender.EnqueueAll.{enqueue_lists_all}
use num8_lup.Sender.TransmitInv.{poll_tx-Inv}
use num8_lup.Sender.ReceiveInv.{receive-Inv}
use num8_lup.Tests.States.{ready, ready-Inv, waiting, waiting-Inv, ack_frame}

poll_tx-Inv_example : Inv (poll_tx ready 0 64).1
poll_tx-Inv_example = poll_tx-Inv ready 0 64 ready-Inv

enqueue_op-Inv_example : Inv (enqueue_op ready 2 7).1
enqueue_op-Inv_example = enqueue_op-Inv 2 7 ready-Inv (omega arith) (inr refl)

enqueue_op-contents_example :
    let (answer, s') = enqueue_op ready 2 7 in
    (answer ≡ some 2)
    × (contents s'
        ≡ drop (sender_active_floor ready - 1) (contents ready)
          ++ (record { op_id = 2; op_type = 2; value = 7 } ∷ []))
unfolding sender_reclaim_history sender_active_floor num8_lup.Sender.floor_loop
enqueue_op-contents_example =
    enqueue_op-contents 2 7 ready-Inv refl (inr refl) (omega arith) (omega arith)

-- A log without room.
abbrev tight : Sender
tight = record ready { ops = record { op_id = 1; op_type = 1; value = 42 } ∷ []; op_capacity = 1 }

tight-Inv : Inv tight
tight-Inv = record {
  log = record {
    storage = refl;
    small = omega arith;
    head_in = omega arith;
    count_in = omega arith;
    numbers = refl;
    positive = omega arith;
    ids_left = omega arith;
    is_log = (refl, inl refl, omega arith, tt);
  };
  slots = (((λ w. cc), omega arith), tt);
  table = refl;
  small_table = omega arith;
  small_retries = omega arith;
}

enqueue_op-IsFull_example :
    (IsFull tight × (enqueue_op tight 2 7 ≡ (none, tight)))
    ⊎ ((¬ IsFull tight) × ((enqueue_op tight 2 7).0 ≡ some 2))
enqueue_op-IsFull_example = enqueue_op-IsFull 2 7 tight-Inv refl (inr refl) (omega arith)

-- Zeroing a part of an element is of no matter for a whole number of elements.
abbrev platform : Platform
platform = record {
  size_max = 2 ^ 64 - 1;
  sizeof_op = 12;
  sizeof_slot = 32;
  cut_op = λ n op. op;
  cut_slot = λ n slot. slot;
}

-- What the storage of the receivers held before.
abbrev stale : Slot
stale = record zero_slot { waiting_ack = true; retries = 200; active = true }

sender_init-Inv_example : Inv (
    sender_init platform 7 100 50 3 (some (zero_op ∷ zero_op ∷ [])) 2 (some (stale ∷ stale ∷ [])) 2)
unfolding num8_lup.Sender.storage_pair_is_valid
sender_init-Inv_example =
    sender_init-Inv platform 7 100 50 3 2 2 (some (zero_op ∷ zero_op ∷ []))
      (some (stale ∷ stale ∷ [])) refl refl refl refl (omega arith) (omega arith) (omega arith)
      (omega arith)

contents-reclaim_example :
    contents (sender_reclaim_history ready) ≡ drop (sender_active_floor ready - 1) (contents ready)
contents-reclaim_example = contents-reclaim ready-Inv.log

find_op_lem_example :
    find_op ready 1
    ≡ (if ltb 1 1 || ltb 1 1 then none else some (get_or (contents ready) (1 - 1) zero_op))
find_op_lem_example = find_op_lem 1 ready-Inv.log

enqueue_lists-Inv_example : Inv (enqueue_lists ready (5 ∷ []) []).sender
enqueue_lists-Inv_example = enqueue_lists-Inv ready (5 ∷ []) [] ready-Inv (omega arith)

-- A log with three places and three operation numbers left.
abbrev almost : Sender
almost = record ready {
  latest_op_id = 2 ^ 32 - 4;
  oldest_retained_op_id = 2 ^ 32 - 4;
  ops = record { op_id = 2 ^ 32 - 4; op_type = 1; value = 42 } ∷ zero_op ∷ zero_op ∷ zero_op ∷ [];
  op_capacity = 4;
}

almost-Inv : Inv almost
almost-Inv = record {
  log = record {
    storage = refl;
    small = omega arith;
    head_in = omega arith;
    count_in = omega arith;
    numbers = refl;
    positive = omega arith;
    ids_left = omega arith;
    is_log = (refl, inl refl, omega arith, tt);
  };
  slots = (((λ w. cc), omega arith), tt);
  table = refl;
  small_table = omega arith;
  small_retries = omega arith;
}

enqueue_lists_all_example :
    let e = enqueue_lists almost (5 ∷ []) (6 ∷ 7 ∷ []) in
    (e.status ≡ true)
    × (e.first ≡ 2 ^ 32 - 3)
    × (e.last ≡ 2 ^ 32 - 1)
    × (e.sender.latest_op_id ≡ e.last)
    × (e.sender.oldest_retained_op_id ≤ e.last)
    × Grown almost
        (numbered 2 (2 ^ 32 - 3) (5 ∷ []) ++ numbered 1 (2 ^ 32 - 2) (6 ∷ 7 ∷ []))
        e.sender
unfolding all_in_range
enqueue_lists_all_example =
    enqueue_lists_all (5 ∷ []) (6 ∷ 7 ∷ []) almost-Inv refl (omega arith) (omega arith)
      (omega arith) refl refl

registry-Inv_example :
    Inv (register_receiver ready 10 0).1
    × Inv (set_receiver_progress ready 10 0).1
    × Inv (unregister_receiver ready 10).1
registry-Inv_example = registry-Inv 10 0 ready-Inv

receive-Inv_example :
    Inv (handle_rx waiting 20 ack_frame).1 × Inv (handle_request waiting ack_frame 64).1
receive-Inv_example = receive-Inv waiting 20 64 ack_frame waiting-Inv

sender_active_floor_lem_example :
    NoneNeeds (sender_active_floor ready) ready.receivers
    × ((sender_active_floor ready ≡ 2) ⊎ SomeNeeds (sender_active_floor ready) ready.receivers)
sender_active_floor_lem_example = sender_active_floor_lem ready
