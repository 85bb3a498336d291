-- ===== src/Sender/LogLaws.antt =====
-- The functions of the log against the list of its operations.
use num8_lup.Base.{
  ℕ, zero, suc, ◌+◌, ◌-◌, ◌%◌, ◌^◌, ◌≤◌, ◌<◌, ◌≡◌, ◌⊎◌, refl, ◌∙◌, ap, arith, some, none, List, [],
  ◌∷◌, ◌++◌, length, get_or, drop, length-set, ltb, ◌==◌, ◌||◌, if◌then◌else◌,
}
use num8_lup.Base.Words.{u32}
use num8_lup.Op.{op_add, op_remove}
use num8_lup.Sender.Types.{SenderOp, Sender, zero_op, max_value}
use num8_lup.Sender.Log.{wrap, find_op, drop_below, append_op}
use num8_lup.Sender.Ring.{
  window, contents, IsLog, LogInv, wrap-mod, get_or-window, drop-window, window-shift, window-set,
  length-window,
}
use mathlib.Core.Path.{ap₂}
use native.Mathlib.Nat.{mod-lt}

-- In a ring in order, `find_op` returns the operation at its place in the log, counted from the
-- oldest number, for a number between the oldest and the latest one, and nothing for any other.
pub find_op_lem :
    {s : Sender} (op_id : ℕ)
    → LogInv s
    → find_op s op_id ≡ (
        if ltb op_id s.oldest_retained_op_id || ltb s.latest_op_id op_id
        then none
        else some (get_or (contents s) (op_id - s.oldest_retained_op_id) zero_op))
unfolding find_op
find_op_lem {s} op_id v = ground (
  arith,
  wrap-mod (u32 (s.op_head + (op_id - s.oldest_retained_op_id))) s.op_capacity,
  get_or-window s.ops s.op_capacity s.op_head 0 s.op_count (op_id - s.oldest_retained_op_id),
)

-- An empty log may start anywhere.
window_from_zero :
    (ops : List SenderOp) (c head n : ℕ)
    → window ops c (if n == 0 then 0 else head) 0 n ≡ window ops c head 0 n
window_from_zero ops c head zero = refl
window_from_zero ops c head (suc n) = ground arith

module _ {s : Sender} (v : LogInv s) where
  -- `append_op` adds the next operation at the end.
  pub contents-append_op :
      (type value : ℕ)
      → s.op_count < s.op_capacity
      → contents (append_op s type value)
        ≡ contents s ++ (record { op_id = s.latest_op_id + 1; op_type = type; value = value } ∷ [])
  unfolding append_op
  contents-append_op type value h =
      let op : ℕ → SenderOp = λ n. record { op_id = n; op_type = type; value = value } in
      let head : ℕ = if s.op_count == 0 then 0 else s.op_head in
      let count : u32 (s.op_count + 1) ≡ suc s.op_count = omega arith in
      let latest : u32 (s.latest_op_id + 1) ≡ s.latest_op_id + 1 = omega arith in
      let index : wrap (u32 (head + s.op_count)) s.op_capacity
          ≡ (head + (0 + s.op_count)) % s.op_capacity =
        wrap-mod _ s.op_capacity ∙ ap (λ j. j % s.op_capacity) (ground arith) in
      rw count (
        window-set s.ops s.op_capacity head 0 s.op_count _ _ v.storage (omega arith) index
        ∙ ap₂ (λ l n. l ++ (op n ∷ [])) (window_from_zero s.ops s.op_capacity s.op_head s.op_count)
            latest)

  pub contents-drop_below :
      (floor : ℕ)
      → s.oldest_retained_op_id ≤ floor
      → floor ≤ s.latest_op_id + 1
      → contents (drop_below s floor) ≡ drop (floor - s.oldest_retained_op_id) (contents s)
  unfolding drop_below
  contents-drop_below floor lo hi = ground (
    arith,
    window-shift s.ops s.op_capacity s.op_head (floor - s.oldest_retained_op_id) 0
        (s.op_count - (floor - s.oldest_retained_op_id)),
    drop-window s.ops s.op_capacity s.op_head 0 s.op_count (floor - s.oldest_retained_op_id),
  )

IsLog-snoc :
    (first : ℕ) (ops : List SenderOp) (op : SenderOp)
    → IsLog first ops
    → op.op_id ≡ first + length ops
    → (op.op_type ≡ op_add) ⊎ (op.op_type ≡ op_remove)
    → op.value ≤ max_value
    → IsLog first (ops ++ (op ∷ []))
IsLog-snoc first [] op h e t r = (omega arith, t, r, tt)
IsLog-snoc first (x ∷ xs) op h e t r =
    (h.0, h.1, h.2, IsLog-snoc (first + 1) xs op h.3 (omega arith) t r)

IsLog-drop :
    (first d k : ℕ) (ops : List SenderOp) → k ≡ first + d → IsLog first ops → IsLog k (drop d ops)
IsLog-drop first zero k ops e h = let e' : k ≡ first = omega arith in rw e' h
IsLog-drop first (suc d) k [] e h = tt
IsLog-drop first (suc d) k (x ∷ xs) e h = IsLog-drop (first + 1) d k xs (omega arith) h.3

-- An entry of the log carries its own number.
pub IsLog-get_or :
    (first i : ℕ) (ops : List SenderOp)
    → IsLog first ops
    → i < length ops
    → let op = get_or ops i zero_op in
      (op.op_id ≡ first + i)
      × ((op.op_type ≡ op_add) ⊎ (op.op_type ≡ op_remove))
      × (op.value ≤ max_value)
IsLog-get_or first i [] h lt = absurd (omega arith)
IsLog-get_or first zero (x ∷ xs) h lt = (omega arith, h.1, h.2)
IsLog-get_or first (suc i) (x ∷ xs) h lt = omega (arith, IsLog-get_or (first + 1) i xs h.3)

pub length-contents : (s : Sender) → length (contents s) ≡ s.op_count
length-contents s = length-window s.ops s.op_capacity s.op_head 0 s.op_count

module _ {s : Sender} (v : LogInv s) where
  pub oldest-append_op :
      (type value : ℕ) → (append_op s type value).oldest_retained_op_id ≡ s.oldest_retained_op_id
  unfolding append_op
  oldest-append_op type value = ground arith

  pub append_op-LogInv :
      (type value : ℕ)
      → s.op_count < s.op_capacity
      → s.latest_op_id + 2 < 2 ^ 32
      → (type ≡ op_add) ⊎ (type ≡ op_remove)
      → value ≤ max_value
      → LogInv (append_op s type value)
  append_op-LogInv type value h ids t r =
      let oldest = oldest-append_op type value in
      record {
        storage = unfold append_op in (length-set s.ops _ _ ∙ v.storage);
        small = unfold append_op in v.small;
        head_in = unfold append_op in ground arith;
        count_in = unfold append_op in ground arith;
        numbers = unfold append_op in ground arith;
        positive = unfold append_op in ground arith;
        ids_left = unfold append_op in ground arith;
        is_log =
            rw (oldest, contents-append_op v type value h)
              (IsLog-snoc s.oldest_retained_op_id (contents s) _ v.is_log
                (omega (arith, length-contents s)) t r);
      }

  pub drop_below-LogInv :
      (floor : ℕ)
      → s.oldest_retained_op_id ≤ floor
      → floor ≤ s.latest_op_id + 1
      → LogInv (drop_below s floor)
  drop_below-LogInv floor lo hi = record {
    storage = unfold drop_below in v.storage;
    small = unfold drop_below in v.small;
    head_in =
        unfold drop_below in
        ground (arith, mod-lt (s.op_head + (floor - s.oldest_retained_op_id)) {m = s.op_capacity});
    count_in = unfold drop_below in ground arith;
    numbers = unfold drop_below in ground arith;
    positive = unfold drop_below in ground arith;
    ids_left = unfold drop_below in ground arith;
    is_log = rw (contents-drop_below v floor lo hi) (
        unfold drop_below in
        IsLog-drop s.oldest_retained_op_id _ floor (contents s) (omega arith) v.is_log);
  }
