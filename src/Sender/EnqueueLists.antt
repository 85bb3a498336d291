-- ===== src/Sender/EnqueueLists.antt =====
-- `num8lora_sender_enqueue_lists` keeps the invariant.
use num8_lup.Base.{
  ℕ, ◌+◌, ◌^◌, ◌≤◌, ◌<◌, inl, inr, refl, arith, false, ◌==◌, Option, none, some, List, [], ◌∷◌,
  length, if◌then◌else◌,
}
use num8_lup.Op.{op_add, op_remove}
use num8_lup.Sender.Types.{Sender}
use num8_lup.Sender.Log.{enqueue_op, append_op, enqueue_each, enqueue_lists, Enqueued}
use num8_lup.Sender.Reclaim.{reclaim-Reclaimed}
use num8_lup.Sender.Inv.{Inv}
use num8_lup.Sender.Enqueue.{IsOpType, enqueue_op-Inv}

enqueue_op_latest :
    (s : Sender) (type value : ℕ) → (enqueue_op s type value).1.latest_op_id ≤ s.latest_op_id + 1
unfolding enqueue_op append_op
enqueue_op_latest s type value = ground (arith, (reclaim-Reclaimed s).latest)

enqueue_each-Inv :
    (type : ℕ) (values : List ℕ) (first last : ℕ) {s : Sender}
    → IsOpType type
    → s.latest_op_id + length values + 1 < 2 ^ 32
    → Inv s
    → let e = enqueue_each type values first last s in
      Inv e.sender × (e.sender.latest_op_id ≤ s.latest_op_id + length values)
unfolding enqueue_each
enqueue_each-Inv type [] first last t ids v = (v, omega arith)
enqueue_each-Inv type (x ∷ xs) first last {s} t ids v =
    go (enqueue_op s type x) (enqueue_op-Inv type x v (omega arith) t) (enqueue_op_latest s type x)
      (λ f l s1 less w. enqueue_each-Inv type xs f l {s = s1} t (omega arith) w)
  where
    go :
        (e : Option ℕ × Sender)
        → Inv e.1
        → e.1.latest_op_id ≤ s.latest_op_id + 1
        → ((f l : ℕ) (s1 : Sender)
            → s1.latest_op_id ≤ s.latest_op_id + 1
            → Inv s1
            → Inv (enqueue_each type xs f l s1).sender
              × ((enqueue_each type xs f l s1).sender.latest_op_id ≤ s1.latest_op_id + length xs))
        → let r : Enqueued = elim e.0 [
          | none ↦ record { status = false; first = first; last = last; sender = e.1 }
          | some op_id ↦ enqueue_each type xs (if first == 0 then op_id else first) op_id e.1
        ] in
          Inv r.sender × (r.sender.latest_op_id ≤ s.latest_op_id + length (x ∷ xs))
    go (none, s1) w less rest = (w, omega arith)
    go (some id, s1) w less rest =
        let h = rest (if first == 0 then id else first) id s1 less w in (h.0, omega (arith, h.1))

-- `enqueue_lists` keeps the invariant of the sender, whether it succeeds or stops on the way,
-- while the lists leave two operation numbers within 32 bits.
pub enqueue_lists-Inv :
    (s : Sender) (remove_values add_values : List ℕ)
    → Inv s
    → s.latest_op_id + length remove_values + length add_values + 1 < 2 ^ 32
    → Inv (enqueue_lists s remove_values add_values).sender
unfolding enqueue_lists
enqueue_lists-Inv s remove_values add_values v ids =
    let removed = enqueue_each op_remove remove_values 0 0 s in
    let h = enqueue_each-Inv op_remove remove_values 0 0 (inr refl) (omega arith) v in
    let k =
      enqueue_each-Inv op_add add_values removed.first removed.last (inl refl) (omega (arith, h.1))
        h.0 in
    ground (arith, v, h.0, k.0)
