-- ===== src/Sender/Grown.antt =====
-- How the log of the sender grows by several operations, some of its first ones being reclaimed on
-- the way.
use num8_lup.Base.{
  ℕ, ◌+◌, ◌-◌, ◌≤◌, ◌<◌, ◌≡◌, ◌⊎◌, inl, inr, refl, sym, ◌∙◌, ap, arith, List, [], ◌∷◌, ◌++◌, length,
  length-append, drop, drop-drop, drop-append, length-drop,
}
use num8_lup.Sender.Types.{SenderOp, Sender}
use num8_lup.Sender.Log.{sender_active_floor, sender_reclaim_history, drop_below, append_op}
use num8_lup.Sender.Ring.{contents}
use num8_lup.Sender.LogLaws.{contents-append_op, oldest-append_op, length-contents}
use num8_lup.Sender.Reclaim.{
  NoneNeeds, sender_active_floor-le, sender_active_floor-NoneNeeds, contents-reclaim,
  reclaim-Reclaimed, reclaim-LogInv,
}
use num8_lup.Sender.Inv.{Inv}
use mathlib.Core.List.{append-nil, append_assoc}

-- The operations of one type with consecutive numbers.
abbrev pub numbered : ℕ → ℕ → List ℕ → List SenderOp
numbered type first [] = []
numbered type first (x ∷ xs) =
    record { op_id = first; op_type = type; value = x } ∷ numbered type (first + 1) xs

-- The log of `t` is the one of `s` with the operations at its end, without its first ones, which no
-- active receiver needs.
pub record Grown (s : Sender) (ops : List SenderOp) (t : Sender) : Type 0 where
  pub receivers : t.receivers ≡ s.receivers
  pub from : s.oldest_retained_op_id ≤ t.oldest_retained_op_id
  pub upto : t.oldest_retained_op_id ≤ s.oldest_retained_op_id + length (contents s ++ ops)
  pub log :
      contents t ≡ drop (t.oldest_retained_op_id - s.oldest_retained_op_id) (contents s ++ ops)
  pub spared :
      (t.oldest_retained_op_id ≡ s.oldest_retained_op_id)
      ⊎ NoneNeeds t.oldest_retained_op_id s.receivers

pub Grown-refl : (s : Sender) → Grown s [] s
Grown-refl s = record {
  receivers = refl;
  from = omega arith;
  upto = omega arith;
  log =
      let none_dropped : s.oldest_retained_op_id - s.oldest_retained_op_id ≡ 0 = omega arith in
      rw none_dropped (sym (append-nil (contents s)));
  spared = inl refl;
}

pub Grown-trans :
    {s t u : Sender} {xs ys : List SenderOp} → Grown s xs t → Grown t ys u → Grown s (xs ++ ys) u
Grown-trans {s} {t} {u} {xs} {ys} g h = record {
  receivers = h.receivers ∙ g.receivers;
  from = omega (arith, g.from, h.from);
  upto = omega (
    arith,
    h.upto,
    g.from,
    g.upto,
    length-append (contents t) ys,
    length-append xs ys,
    length-append (contents s) xs,
    length-append (contents s) (xs ++ ys),
    ap length g.log,
    length-drop d (contents s ++ xs),
  );
  log =
      h.log
      ∙ ap (λ l. drop d' (l ++ ys)) g.log
      ∙ ap (drop d') (sym (drop-append d (contents s ++ xs) ys (omega (arith, g.from, g.upto))))
      ∙ drop-drop d d' ((contents s ++ xs) ++ ys)
      ∙ ap (λ l. drop (d + d') l) (append_assoc (contents s) xs ys)
      ∙ ap (λ k. drop k (contents s ++ (xs ++ ys))) (omega (arith, g.from, h.from));
  spared = spared g.spared h.spared;
}
  where
    d : ℕ
    d = t.oldest_retained_op_id - s.oldest_retained_op_id

    d' : ℕ
    d' = u.oldest_retained_op_id - t.oldest_retained_op_id

    spared :
        (t.oldest_retained_op_id ≡ s.oldest_retained_op_id)
          ⊎ NoneNeeds t.oldest_retained_op_id s.receivers
        → (u.oldest_retained_op_id ≡ t.oldest_retained_op_id)
          ⊎ NoneNeeds u.oldest_retained_op_id t.receivers
        → (u.oldest_retained_op_id ≡ s.oldest_retained_op_id)
          ⊎ NoneNeeds u.oldest_retained_op_id s.receivers
    spared a (inr n) = inr (rw g.receivers at n)
    spared (inl e) (inl f) = inl (f ∙ e)
    spared (inr n) (inl f) = inr (rw f n)

oldest-reclaim :
    (s : Sender)
    → (sender_reclaim_history s).oldest_retained_op_id - s.oldest_retained_op_id
      ≡ sender_active_floor s - s.oldest_retained_op_id
unfolding sender_reclaim_history drop_below
oldest-reclaim s = ground (arith, sender_active_floor-le s)

receivers-append_op :
    (s : Sender) (type value : ℕ) → (append_op s type value).receivers ≡ s.receivers
unfolding append_op
receivers-append_op s type value = refl

-- One operation, as `enqueue_op` appends it.
pub append_op-Grown :
    {s : Sender} (type value : ℕ)
    → Inv s
    → (sender_reclaim_history s).op_count < s.op_capacity
    → Grown s
        (numbered type (s.latest_op_id + 1) (value ∷ []))
        (append_op (sender_reclaim_history s) type value)
append_op-Grown {s} type value v room =
    let r : Sender = sender_reclaim_history s in
    let same = reclaim-Reclaimed s in
    let ok = reclaim-LogInv v.log in
    let oldest = oldest-append_op ok type value in
    let op : ℕ → List SenderOp = λ n. record { op_id = n; op_type = type; value = value } ∷ [] in
    let made = op (s.latest_op_id + 1) in
    let free : r.op_count < r.op_capacity = omega (arith, same.capacity) in
    let inside : r.oldest_retained_op_id - s.oldest_retained_op_id ≤ length (contents s) =
      omega (arith, ok.numbers, v.log.numbers, same.latest, length-contents s) in
    record {
      receivers = receivers-append_op r type value ∙ same.receivers;
      from = rw oldest same.grows;
      upto = rw oldest (omega (arith, same.grows, inside, length-append (contents s) made));
      log = rw oldest (
          contents-append_op ok type value free
          ∙ ap (λ l. l ++ op (r.latest_op_id + 1)) (contents-reclaim v.log)
          ∙ ap
              (λ n.
                drop (sender_active_floor s - s.oldest_retained_op_id) (contents s) ++ op (n + 1))
              same.latest
          ∙ ap (λ k. drop k (contents s) ++ made) (sym (oldest-reclaim s))
          ∙ sym (drop-append _ (contents s) made inside));
      spared = elim same.stops [
        | inl e ↦ inl (oldest ∙ e)
        | inr e ↦ inr (rw (oldest, e) (sender_active_floor-NoneNeeds s))
      ];
    }
