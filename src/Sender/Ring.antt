-- ===== src/Sender/Ring.antt =====
-- The operations that the ring of the sender holds, oldest first, and what the two writes do to
-- them: appending at the end, dropping at the front.
use num8_lup.Base.{
  ℕ, zero, suc, ◌+◌, ◌-◌, ◌%◌, ◌^◌, ◌≤◌, ◌<◌, ◌≡◌, ◌≢◌, refl, ◌∙◌, ap, arith, List, [], ◌∷◌, ◌++◌,
  length, get_or, set, drop, get_or-set_self, get_or-set_ne, ◌⊎◌, length-append,
}
use num8_lup.Op.{op_add, op_remove}
use num8_lup.Sender.Types.{SenderOp, Sender, zero_op, max_value}
use num8_lup.Sender.Log.{wrap}
use mathlib.Core.Path.{ap₂, sym}
use native.Mathlib.Nat.{mod-eq_of_lt, mod-add-mod, mod-lt, mod-eq-sub-mod}

pub wrap-mod : (i c : ℕ) → wrap i c ≡ i % c
unfolding wrap
wrap-mod i c = ground (arith, mod-eq_of_lt {n = i} {m = c})

-- `n` elements from position `k` of the ring that starts at `head`.
module _ (ops : List SenderOp) (c head : ℕ) where
  abbrev pub window : ℕ → ℕ → List SenderOp
  window k zero = []
  window k (suc n) = get_or ops ((head + k) % c) zero_op ∷ window (k + 1) n

  pub length-window : (k n : ℕ) → length (window k n) ≡ n
  length-window k zero = refl
  length-window k (suc n) = ap suc (length-window (k + 1) n)

  pub get_or-window :
      (k n i : ℕ)
      → i < n
      → get_or (window k n) i zero_op ≡ get_or ops ((head + (k + i)) % c) zero_op
  get_or-window k zero i h = absurd (omega arith)
  get_or-window k (suc n) zero h = ap (λ j. get_or ops ((head + j) % c) zero_op) (omega arith)
  get_or-window k (suc n) (suc i) h =
      get_or-window (k + 1) n i (omega arith)
      ∙ ap (λ j. get_or ops ((head + j) % c) zero_op) (omega arith)

  pub drop-window : (k n d : ℕ) → d ≤ n → drop d (window k n) ≡ window (k + d) (n - d)
  drop-window k n zero h =
      let e : k + 0 ≡ k = omega arith in let f : n - 0 ≡ n = omega arith in rw (e, f)
  drop-window k zero (suc d) h = absurd (omega arith)
  drop-window k (suc n) (suc d) h =
      let e : k + suc d ≡ k + 1 + d = omega arith in
      let f : suc n - suc d ≡ n - d = omega arith in
      rw (e, f) (drop-window (k + 1) n d (omega arith))

-- Moving the head is moving the position.
pub window-shift :
    (ops : List SenderOp) (c head d k n : ℕ)
    → window ops c ((head + d) % c) k n ≡ window ops c head (d + k) n
window-shift ops c head d k zero = refl
window-shift ops c head d k (suc n) =
    let e : ((head + d) % c + k) % c ≡ (head + (d + k)) % c =
      mod-add-mod (head + d) c k ∙ ap (λ j. j % c) (omega arith) in
    let f : d + k + 1 ≡ d + (k + 1) = omega arith in
    rw (e, f)
      (ap (λ l. get_or ops ((head + (d + k)) % c) zero_op ∷ l)
        (window-shift ops c head d (k + 1) n))

-- Two positions less than a round apart are different indices.
index-ne : (c head j n : ℕ) → j < n → n < c → (head + j) % c ≢ (head + n) % c
index-ne c head j n hj hn e = ground (
  arith,
  mod-lt (head + j) {m = c},
  mod-add-mod (head + j) c (n - j),
  mod-eq_of_lt {n = (head + j) % c + (n - j)} {m = c},
  mod-eq-sub-mod {n = (head + j) % c + (n - j)} {m = c},
  mod-eq_of_lt {n = (head + j) % c + (n - j) - c} {m = c},
)

-- Writing behind a window extends it.
pub window-set :
    (ops : List SenderOp) (c head k n i : ℕ) (x : SenderOp)
    → length ops ≡ c
    → k + n < c
    → i ≡ (head + (k + n)) % c
    → window (set ops i x) c head k (suc n) ≡ window ops c head k n ++ (x ∷ [])
window-set ops c head k zero i x hl h e =
    let here : (head + k) % c ≡ i = sym (e ∙ ap (λ j. (head + j) % c) (omega arith)) in
    rw (here, get_or-set_self ops i x zero_op (omega (arith, mod-lt (head + k) {m = c})))
window-set ops c head k (suc n) i x hl h e =
    let e' : i ≡ (head + (k + 1 + n)) % c = e ∙ ap (λ j. (head + j) % c) (omega arith) in
    ap₂ ◌∷◌
      (get_or-set_ne ops i ((head + k) % c) x zero_op
        (λ p. index-ne c head k (k + 1 + n) (omega arith) (omega arith) (sym p ∙ e')))
      (window-set ops c head (k + 1) n i x hl (omega arith) e')

pub length-snoc : (xs : List SenderOp) (x : SenderOp) → length (xs ++ (x ∷ [])) ≡ suc (length xs)
length-snoc xs x = omega (arith, length-append xs (x ∷ []))

abbrev pub contents : Sender → List SenderOp
contents s = window s.ops s.op_capacity s.op_head 0 s.op_count

-- The operations carry consecutive numbers from `first` on, and each is a valid change.
abbrev pub IsLog : ℕ → List SenderOp → Type 0
IsLog first [] = Unit {0}
IsLog first (op ∷ ops) =
    (op.op_id ≡ first)
    × ((op.op_type ≡ op_add) ⊎ (op.op_type ≡ op_remove))
    × (op.value ≤ max_value)
    × IsLog (first + 1) ops

-- The invariant of the log. The last field keeps the next operation number within 32 bits.
pub record LogInv (s : Sender) : Type 0 where
  pub storage : length s.ops ≡ s.op_capacity
  pub small : s.op_capacity ≤ 2 ^ 31
  pub head_in : s.op_head ≤ s.op_capacity - 1
  pub count_in : s.op_count ≤ s.op_capacity
  pub numbers : s.oldest_retained_op_id + s.op_count ≡ s.latest_op_id + 1
  pub positive : 0 < s.oldest_retained_op_id
  pub ids_left : s.latest_op_id + 1 < 2 ^ 32
  pub is_log : IsLog s.oldest_retained_op_id (contents s)
