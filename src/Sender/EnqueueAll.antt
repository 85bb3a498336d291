-- ===== src/Sender/EnqueueAll.antt =====
-- `num8lora_sender_enqueue_lists` is all or nothing: once its tests pass, no single append fails.
use num8_lup.Base.{
  ℕ, ◌+◌, ◌^◌, ◌≤◌, ◌<◌, ◌≡◌, ◌⊎◌, inl, inr, refl, ◌∙◌, ap, arith, true, ◌&&◌, ◌==◌, ltb, some,
  List, [], ◌∷◌, ◌++◌, length, if◌then◌else◌, Bool-cases,
}
use num8_lup.Op.{op_add, op_remove}
use num8_lup.Sender.Types.{Sender, max_value}
use num8_lup.Sender.Log.{
  enqueue_op, append_op, drop_below, sender_reclaim_history, enqueue_each, enqueue_lists, Enqueued,
  all_in_range,
}
use num8_lup.Sender.LogLaws.{oldest-append_op}
use num8_lup.Sender.Reclaim.{reclaim-Reclaimed, reclaim-LogInv}
use num8_lup.Sender.Inv.{Inv}
use num8_lup.Sender.Enqueue.{IsOpType, enqueue_op-Inv, enqueue_op_room}
use num8_lup.Sender.Grown.{Grown, numbered, Grown-refl, Grown-trans, append_op-Grown}

-- The free places of the log, and what appending needs of a sender. The last number may be used up
-- by the last of the operations, behind which the invariant is not needed.
record Ready (s : Sender) (n : ℕ) : Type 0 where
  ok : 0 < n → Inv s
  storage : s.has_ops ≡ true
  places : s.op_count + n ≤ s.op_capacity
  ids : s.latest_op_id + n < 2 ^ 32

reclaim-count : (s : Sender) → (sender_reclaim_history s).op_count ≤ s.op_count
unfolding sender_reclaim_history drop_below
reclaim-count s = ground arith

reclaim-storage : (s : Sender) → (sender_reclaim_history s).has_ops ≡ s.has_ops
unfolding sender_reclaim_history drop_below
reclaim-storage s = ground arith

-- One append uses one place and one number.
record Step (s : Sender) (type value n : ℕ) : Type 0 where
  answer : (enqueue_op s type value).0 ≡ some (s.latest_op_id + 1)
  latest : (enqueue_op s type value).1.latest_op_id ≡ s.latest_op_id + 1
  kept : (enqueue_op s type value).1.oldest_retained_op_id ≤ s.latest_op_id + 1
  grown : Grown s (numbered type (s.latest_op_id + 1) (value ∷ [])) (enqueue_op s type value).1
  left : Ready (enqueue_op s type value).1 n

enqueue_op-Step :
    {s : Sender} {n : ℕ} (type value : ℕ)
    → IsOpType type
    → value ≤ max_value
    → Ready s (n + 1)
    → Step s type value n
unfolding append_op
enqueue_op-Step {s} {n} type value t r ready =
    let v : Inv s = ready.ok (omega arith) in
    let places : (sender_reclaim_history s).op_count < s.op_capacity =
      omega (arith, reclaim-count s, ready.places) in
    let room = enqueue_op_room type value v ready.storage t r places in
    let same = reclaim-Reclaimed s in
    let latest : (enqueue_op s type value).1.latest_op_id ≡ s.latest_op_id + 1 =
      rw room (omega (arith, same.latest, ready.ids)) in
    let log = reclaim-LogInv v.log in
    record {
      answer = ap (λ e. e.0) room;
      latest = latest;
      kept = rw (room, oldest-append_op log type value) (omega (arith, log.numbers, same.latest));
      grown = rw room (append_op-Grown type value v places);
      left = record {
        ok = λ more. enqueue_op-Inv type value v (omega (arith, ready.ids)) t;
        storage = rw room (reclaim-storage s ∙ ready.storage);
        places = rw room (omega (arith, reclaim-count s, same.capacity, ready.places));
        ids = omega (arith, latest, ready.ids);
      };
    }

-- The result of a loop that appends operations of one type.
record Appended (s : Sender) (type : ℕ) (values : List ℕ) (first last : ℕ) (e : Enqueued)
    : Type 0 where
  status : e.status ≡ true
  first_id : e.first ≡ (if first == 0 && ltb 0 (length values) then s.latest_op_id + 1 else first)
  last_id : e.last ≡ (if ltb 0 (length values) then s.latest_op_id + length values else last)
  latest : e.sender.latest_op_id ≡ s.latest_op_id + length values
  grown : Grown s (numbered type (s.latest_op_id + 1) values) e.sender
  kept :
      (s.oldest_retained_op_id ≤ s.latest_op_id) ⊎ (0 < length values)
      → e.sender.oldest_retained_op_id ≤ e.sender.latest_op_id

enqueue_each_all :
    (type : ℕ) (values : List ℕ) (first last n : ℕ) {s : Sender}
    → IsOpType type
    → all_in_range values ≡ true
    → Ready s (n + length values)
    → let e = enqueue_each type values first last s in
      Appended s type values first last e × Ready e.sender n
unfolding enqueue_each all_in_range
enqueue_each_all type [] first last n {s} t ranges ready = (
  record {
    status = refl;
    first_id = ground arith;
    last_id = refl;
    latest = omega arith;
    grown = Grown-refl s;
    kept = λ h. omega arith;
  },
  record {
    ok = λ more. ready.ok (omega arith);
    storage = ready.storage;
    places = omega (arith, ready.places);
    ids = omega (arith, ready.ids);
  },
)
enqueue_each_all type (x ∷ xs) first last n {s} t ranges ready =
    let step = enqueue_op-Step {s = s} {n = n + length xs} type x t (ground arith) more in
    let next : ℕ = if first == 0 then s.latest_op_id + 1 else first in
    let (done, rest) =
      enqueue_each_all type xs next (s.latest_op_id + 1) n {s = (enqueue_op s type x).1} t
        (ground arith) step.left in
    rw (step.answer, enqueue_each)
      (
        record {
          status = done.status;
          first_id = done.first_id ∙ ground arith;
          last_id = done.last_id ∙ ground (arith, step.latest);
          latest = omega (arith, done.latest, step.latest);
          grown = Grown-trans step.grown (rw step.latest at done.grown);
          kept = λ h. done.kept (inl (omega (arith, step.kept, step.latest)));
        },
        rest,
      )
  where
    more : Ready s (n + length xs + 1)
    more = record {
      ok = λ h. ready.ok (omega arith);
      storage = ready.storage;
      places = omega (arith, ready.places);
      ids = omega (arith, ready.ids);
    }

-- From a sender in order with storage, two lists that are not both empty, hold values in range,
-- and fit into the free places and the operation numbers left within 32 bits are enqueued whole:
-- `enqueue_lists` succeeds and reports the number behind the latest one as the first and the new
-- latest number as the last, which is still in the log; and the log is the old one with a REMOVE
-- for each value of the first list and an ADD for each of the second at its end, in order and
-- numbered on, without its first ones, which no active receiver needs.
pub enqueue_lists_all :
    {s : Sender} (remove_values add_values : List ℕ)
    → Inv s
    → s.has_ops ≡ true
    → 0 < length remove_values + length add_values
    → s.op_count + (length remove_values + length add_values) ≤ s.op_capacity
    → s.latest_op_id + (length remove_values + length add_values) < 2 ^ 32
    → all_in_range remove_values ≡ true
    → all_in_range add_values ≡ true
    → let e = enqueue_lists s remove_values add_values in
      (e.status ≡ true)
      × (e.first ≡ s.latest_op_id + 1)
      × (e.last ≡ s.latest_op_id + (length remove_values + length add_values))
      × (e.sender.latest_op_id ≡ e.last)
      × (e.sender.oldest_retained_op_id ≤ e.last)
      × Grown s
          (numbered op_remove (s.latest_op_id + 1) remove_values
            ++ numbered op_add (s.latest_op_id + length remove_values + 1) add_values)
          e.sender
enqueue_lists_all {s} remove_values add_values v storage some_values places ids removes adds =
    let removed = enqueue_each op_remove remove_values 0 0 s in
    let (a, left) =
      enqueue_each_all op_remove remove_values 0 0 (length add_values) {s = s} (inr refl) removes
        start in
    let (b, rest) =
      enqueue_each_all op_add add_values removed.first removed.last 0 {s = removed.sender}
        (inl refl) adds (enough left) in
    let h = a.status in
    let k = b.status in
    let f = a.first_id in
    let g = b.first_id in
    let l = a.last_id in
    let m = b.last_id in
    let x = a.latest in
    let y = b.latest in
    let whole : enqueue_lists s remove_values add_values
        ≡ enqueue_each op_add add_values removed.first removed.last removed.sender =
      unfold enqueue_lists in ground arith in
    let e = enqueue_each op_add add_values removed.first removed.last removed.sender in
    let reached : e.sender.latest_op_id ≡ e.last = ground arith in
    rw whole (
      k,
      ground arith,
      ground arith,
      reached,
      rw reached at (b.kept (some_left a.kept)),
      Grown-trans a.grown (rw x at b.grown),
    )
  where
    start : Ready s (length add_values + length remove_values)
    start = record { ok = λ h. v; storage = storage; places = omega arith; ids = omega arith }

    some_left :
        {o l : ℕ}
        → ((s.oldest_retained_op_id ≤ s.latest_op_id) ⊎ (0 < length remove_values) → o ≤ l)
        → (o ≤ l) ⊎ (0 < length add_values)
    some_left kept = elim (Bool-cases (ltb 0 (length add_values))) [
      | inl more ↦ inr (ground (arith, more))
      | inr no_more ↦ inl (kept (inr (ground (arith, no_more))))
    ]

    enough : {s1 : Sender} → Ready s1 (length add_values) → Ready s1 (0 + length add_values)
    enough r = record {
      ok = λ h. r.ok (omega arith);
      storage = r.storage;
      places = omega (arith, r.places);
      ids = omega (arith, r.ids);
    }
