-- ===== src/Base/Bits.antt =====
-- `|`, `&` and `^` of C at variables: disjoint fields, masks, and cancellation.
mod Step
use Step.{bit_or_digit, bit_and_digit, bit_xor_digit}
use Prim.Native.Nat.{ℕ, zero, suc, ◌+◌, ◌-◌, ◌*◌, ◌/◌, ◌%◌, ◌^◌, ◌≤◌, ◌<◌}
use Prim.Native.Nat.{bit_and, bit_or, bit_xor, differ, bit_or-bitwise}
use mathlib.Core.Path.{◌≡◌, refl, ap}
use native.Mathlib.Nat.{pow-suc, one-le-pow}
use native.Mathlib.Omega.{arith}

-- Fuel `n` bounds the number, which is halved at each digit.
bit_and_zero : (n a : ℕ) → a ≤ n → bit_and a 0 ≡ 0
bit_and_zero n zero h = refl
bit_and_zero zero (suc a) h = absurd (omega arith)
bit_and_zero (suc n) (suc a) h =
    omega (arith, bit_and_digit (suc a) 0, bit_and_zero n (suc a / 2) (omega arith))

zero_bit_or : (b : ℕ) → bit_or 0 b ≡ b
zero_bit_or b = bit_or-bitwise 0 b

power_next : (q k : ℕ) → q * 2 ^ suc k ≡ 2 * (q * 2 ^ k)
power_next q k = omega (arith, ap (λ (t : ℕ). q * t) (pow-suc 2 k))

-- `r | (q << k)` is a sum where `r` fits in `k` bits.
pub bit_or_disjoint : (k r q : ℕ) → r < 2 ^ k → bit_or r (q * 2 ^ k) ≡ r + q * 2 ^ k
bit_or_disjoint zero r q h = ground (arith, zero_bit_or q)
bit_or_disjoint (suc k) r q h = ground (
  arith,
  pow-suc 2 k,
  bit_or_digit r (q * 2 ^ suc k),
  power_next q k,
  bit_or_disjoint k (r / 2) q (omega (arith, pow-suc 2 k)),
)

-- `&` with `k` low ones leaves the low field.
pub bit_and_low : (k r q : ℕ) → r < 2 ^ k → bit_and (r + q * 2 ^ k) (2 ^ k - 1) ≡ r
bit_and_low zero r q h = ground (arith, bit_and_zero q q)
bit_and_low (suc k) r q h = ground (
  arith,
  pow-suc 2 k,
  one-le-pow k 2,
  power_next q k,
  bit_and_digit (r + q * 2 ^ suc k) (2 ^ suc k - 1),
  bit_and_low k (r / 2) q (omega (arith, pow-suc 2 k)),
)

-- `& (1 << k)` leaves the lowest bit of the high field.
pub bit_and_bit : (k r q : ℕ) → r < 2 ^ k → bit_and (r + q * 2 ^ k) (2 ^ k) ≡ q % 2 * 2 ^ k
bit_and_bit zero r q h = ground (arith, bit_and_digit q 1, bit_and_zero (q / 2) (q / 2))
bit_and_bit (suc k) r q h = ground (
  arith,
  pow-suc 2 k,
  power_next q k,
  power_next (q % 2) k,
  bit_and_digit (r + q * 2 ^ suc k) (2 ^ suc k),
  bit_and_bit k (r / 2) q (omega (arith, pow-suc 2 k)),
)

mod_double : (x d p : ℕ) → 0 < p → d < 2 → (x * 2 + d) % (p * 2) ≡ x % p * 2 + d
mod_double x d p hp hd = grind arith

-- `^` on one digit is the parity of the sum.
differ_parity : (a b : ℕ) → a < 2 → b < 2 → differ a b ≡ (a + b) % 2
differ_parity zero b ha hb = omega arith
differ_parity (suc zero) zero ha hb = refl
differ_parity (suc zero) (suc b) ha hb = omega arith
differ_parity (suc (suc a)) b ha hb = absurd (omega arith)

xor_digit : (a b : ℕ) → bit_xor a b ≡ bit_xor (a / 2) (b / 2) * 2 + (a % 2 + b % 2) % 2
xor_digit a b = omega (arith, bit_xor_digit a b, differ_parity (a % 2) (b % 2))

xor_mod_next :
    (k a b : ℕ)
    → bit_xor a b % 2 ^ suc k ≡ bit_xor (a / 2) (b / 2) % 2 ^ k * 2 + (a % 2 + b % 2) % 2
xor_mod_next k a b =
    rw (pow-suc 2 k, xor_digit a b)
      (mod_double (bit_xor (a / 2) (b / 2)) _ (2 ^ k) (one-le-pow k 2 (omega arith)) (omega arith))

mod_next : (k a : ℕ) → a % 2 ^ suc k ≡ a / 2 % 2 ^ k * 2 + a % 2
mod_next k a = ground (
  arith,
  pow-suc 2 k,
  mod_double (a / 2) (a % 2) (2 ^ k) (one-le-pow k 2 (omega arith)) (omega arith),
)

-- On the lowest `k` bits `^` can be cancelled, on either side.
pub bit_xor_cancel_right :
    (k a b m : ℕ) → bit_xor a m % 2 ^ k ≡ bit_xor b m % 2 ^ k → a % 2 ^ k ≡ b % 2 ^ k
bit_xor_cancel_right zero a b m e = omega arith
bit_xor_cancel_right (suc k) a b m e = omega (
  arith,
  xor_mod_next k a m,
  xor_mod_next k b m,
  mod_next k a,
  mod_next k b,
  bit_xor_cancel_right k (a / 2) (b / 2) (m / 2)
      (omega (arith, xor_mod_next k a m, xor_mod_next k b m)),
)

pub bit_xor_cancel_left :
    (k m a b : ℕ) → bit_xor m a % 2 ^ k ≡ bit_xor m b % 2 ^ k → a % 2 ^ k ≡ b % 2 ^ k
bit_xor_cancel_left zero m a b e = omega arith
bit_xor_cancel_left (suc k) m a b e = omega (
  arith,
  xor_mod_next k m a,
  xor_mod_next k m b,
  mod_next k a,
  mod_next k b,
  bit_xor_cancel_left k (m / 2) (a / 2) (b / 2)
      (omega (arith, xor_mod_next k m a, xor_mod_next k m b)),
)

-- The lowest digit of a `^`.
pub bit_xor_low : (a b : ℕ) → bit_xor a b % 2 ≡ (a % 2 + b % 2) % 2
bit_xor_low a b = omega (arith, xor_digit a b)
