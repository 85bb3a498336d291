-- ===== src/Codec/Detect.antt =====
-- What the CRC detects: with equal bytes around it, one changed byte changes the CRC.
use num8_lup.Base.{ℕ, zero, suc, ◌*◌, ◌/◌, ◌%◌, ◌^◌, ◌<◌, ◌≡◌, ◌≢◌, ◌∙◌, refl, sym, arith}
use num8_lup.Base.{bit_and}
use num8_lup.Base.{List, [], ◌∷◌, ◌++◌}
use num8_lup.Base.Bits.{bit_and_bit, bit_xor_cancel_right, bit_xor_cancel_left, bit_xor_low}
use num8_lup.Codec.{crc_round, crc_rounds, crc_byte, crc_from, crc16_ccitt_false}

abbrev IsU16 : ℕ → Type 0
IsU16 c = c < 65536

top_bit : (c : ℕ) → IsU16 c → bit_and c 0x8000 ≡ c / 32768 * 32768
top_bit c h = ground (arith, bit_and_bit 15 (c % 32768) (c / 32768))

crc_round-IsU16 : (c : ℕ) → IsU16 (crc_round c)
unfolding crc_round
crc_round-IsU16 c = ground arith

-- Each round loses nothing: the polynomial is odd, so the lowest bit tells the branch.
crc_round-injective : (c d : ℕ) → IsU16 c → IsU16 d → crc_round c ≡ crc_round d → c ≡ d
unfolding crc_round
crc_round-injective c d hc hd e = ground (
  arith,
  top_bit c,
  top_bit d,
  bit_xor_low (c * 2 % 2 ^ 32) 0x1021,
  bit_xor_low (d * 2 % 2 ^ 32) 0x1021,
  bit_xor_cancel_right 16 (c * 2 % 2 ^ 32) (d * 2 % 2 ^ 32) 0x1021,
)

crc_rounds-injective : (n c d : ℕ) → IsU16 c → IsU16 d → crc_rounds n c ≡ crc_rounds n d → c ≡ d
unfolding crc_rounds
crc_rounds-injective zero c d hc hd e = e
crc_rounds-injective (suc n) c d hc hd e =
    crc_round-injective c d hc hd
      (crc_rounds-injective n (crc_round c) (crc_round d) (crc_round-IsU16 c) (crc_round-IsU16 d) e)

crc_rounds-IsU16 : (n c : ℕ) → IsU16 c → IsU16 (crc_rounds n c)
unfolding crc_rounds
crc_rounds-IsU16 zero c h = h
crc_rounds-IsU16 (suc n) c h = crc_rounds-IsU16 n (crc_round c) (crc_round-IsU16 c)

pub crc_byte-IsU16 : (c b : ℕ) → IsU16 (crc_byte c b)
unfolding crc_byte
crc_byte-IsU16 c b = crc_rounds-IsU16 8 _ (omega arith)

crc_byte-injective_state : (c d b : ℕ) → IsU16 c → IsU16 d → crc_byte c b ≡ crc_byte d b → c ≡ d
unfolding crc_byte
crc_byte-injective_state c d b hc hd e = omega (
  arith,
  bit_xor_cancel_right 16 c d (b * 2 ^ 8 % 2 ^ 16)
      (crc_rounds-injective 8 _ _ (omega arith) (omega arith) e),
)

crc_byte-injective_byte : (c a b : ℕ) → a < 256 → b < 256 → crc_byte c a ≡ crc_byte c b → a ≡ b
unfolding crc_byte
crc_byte-injective_byte c a b ha hb e = omega (
  arith,
  bit_xor_cancel_left 16 c (a * 2 ^ 8 % 2 ^ 16) (b * 2 ^ 8 % 2 ^ 16)
      (crc_rounds-injective 8 _ _ (omega arith) (omega arith) e),
)

pub crc_from-IsU16 : (c : ℕ) (bs : List ℕ) → IsU16 c → IsU16 (crc_from c bs)
unfolding crc_from
crc_from-IsU16 c [] h = h
crc_from-IsU16 c (b ∷ bs) h = crc_from-IsU16 (crc_byte c b) bs (crc_byte-IsU16 c b)

pub crc16-IsU16 : (bs : List ℕ) → IsU16 (crc16_ccitt_false bs)
unfolding crc16_ccitt_false
crc16-IsU16 bs = crc_from-IsU16 0xFFFF bs (omega arith)

-- A tail of equal bytes keeps two CRC states apart.
crc_from-injective :
    (c d : ℕ) (bs : List ℕ) → IsU16 c → IsU16 d → crc_from c bs ≡ crc_from d bs → c ≡ d
unfolding crc_from
crc_from-injective c d [] hc hd e = e
crc_from-injective c d (b ∷ bs) hc hd e = crc_byte-injective_state c d b hc hd (
    crc_from-injective (crc_byte c b) (crc_byte d b) bs (crc_byte-IsU16 c b) (crc_byte-IsU16 d b) e)

-- The CRC of two parts is that of the second, started from the CRC of the first.
pub crc_from-append : (c : ℕ) (xs ys : List ℕ) → crc_from c (xs ++ ys) ≡ crc_from (crc_from c xs) ys
unfolding crc_from
crc_from-append c [] ys = refl
crc_from-append c (x ∷ xs) ys = crc_from-append (crc_byte c x) xs ys

-- Two lists that differ in exactly one place, where both hold a byte, have different CRCs.
pub crc16_detects_byte :
    (front : List ℕ) (a b : ℕ) (back : List ℕ)
    → a < 256
    → b < 256
    → a ≢ b
    → crc16_ccitt_false (front ++ (a ∷ back)) ≢ crc16_ccitt_false (front ++ (b ∷ back))
unfolding crc16_ccitt_false
crc16_detects_byte front a b back ha hb ne e = ne (crc_byte-injective_byte _ a b ha hb state)
  where
    split :
        (x : ℕ)
        → crc_from 0xFFFF (front ++ (x ∷ back)) ≡ crc_from (crc_byte (crc_from 0xFFFF front) x) back
    split x = crc_from-append 0xFFFF front (x ∷ back) ∙ unfold crc_from in refl

    state : crc_byte (crc_from 0xFFFF front) a ≡ crc_byte (crc_from 0xFFFF front) b
    state =
        crc_from-injective _ _ back (crc_byte-IsU16 _ a) (crc_byte-IsU16 _ b)
          (sym (split a) ∙ e ∙ split b)
