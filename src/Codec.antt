-- ===== src/Codec.antt =====
-- src/num8lora_codec.c: the CRC, little-endian words, and checked additions.
-- A byte buffer with its length is the list of its bytes; `&p[k]` is `drop k p`.
pub mod Words
pub mod Detect
use num8_lup.Base.{ℕ, zero, suc, ◌+◌, ◌*◌, ◌/◌, ◌^◌, bit_and, bit_or, bit_xor, none, some, Option}
use num8_lup.Base.{List, [], ◌∷◌, ltb, ◌==◌, if◌then◌else◌, get_or}
use num8_lup.Base.Words.{u8, u16, u32, u64}

-- One round of the inner loop over the eight bits.
pub crc_round : ℕ → ℕ
crc_round crc =
    if bit_and crc 0x8000 == 0
    then u16 (u32 (crc * 2 ^ 1))
    else u16 (bit_xor (u32 (crc * 2 ^ 1)) 0x1021)

pub crc_rounds : ℕ → ℕ → ℕ
crc_rounds zero crc = crc
crc_rounds (suc n) crc = crc_rounds n (crc_round crc)

-- One round of the outer loop: a byte enters at the top.
unfoldable pub crc_byte : ℕ → ℕ → ℕ
unfolding crc_rounds crc_round
crc_byte crc b = crc_rounds 8 (u16 (bit_xor crc (u16 (b * 2 ^ 8))))

unfoldable pub crc_from : ℕ → List ℕ → ℕ
unfolding crc_byte
crc_from crc [] = crc
crc_from crc (b ∷ bs) = crc_from (crc_byte crc b) bs

unfoldable pub crc16_ccitt_false : List ℕ → ℕ
unfolding crc_from
crc16_ccitt_false bytes = crc_from 0xFFFF bytes

unfoldable pub read_u16_le : List ℕ → ℕ
read_u16_le p = u16 (bit_or (get_or p 0 0) (get_or p 1 0 * 2 ^ 8))

unfoldable pub read_u32_le : List ℕ → ℕ
read_u32_le p =
    bit_or
      (bit_or (bit_or (get_or p 0 0) (u32 (get_or p 1 0 * 2 ^ 8))) (u32 (get_or p 2 0 * 2 ^ 16)))
      (u32 (get_or p 3 0 * 2 ^ 24))

unfoldable pub write_u16_le : ℕ → List ℕ
write_u16_le v = u8 (bit_and v 0xff) ∷ u8 (bit_and (v / 2 ^ 8) 0xff) ∷ []

unfoldable pub write_u32_le : ℕ → List ℕ
write_u32_le v =
    u8 (bit_and v 0xff)
    ∷ u8 (bit_and (v / 2 ^ 8) 0xff)
    ∷ u8 (bit_and (v / 2 ^ 16) 0xff)
    ∷ u8 (bit_and (v / 2 ^ 24) 0xff)
    ∷ []

-- `none` is the return value 0: the 64-bit sum does not fit in 32 bits.
unfoldable pub add_u32 : ℕ → ℕ → Option ℕ
add_u32 a b = let sum = u64 (a + b) in if ltb 0xFFFFFFFF sum then none else some (u32 sum)

unfoldable pub mul_u32 : ℕ → ℕ → Option ℕ
mul_u32 a b = let prod = u64 (a * b) in if ltb 0xFFFFFFFF prod then none else some (u32 prod)

unfoldable pub zero_bytes : ℕ → List ℕ → List ℕ
zero_bytes zero p = p
zero_bytes (suc n) [] = []
zero_bytes (suc n) (b ∷ p) = 0 ∷ zero_bytes n p
