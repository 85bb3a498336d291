-- ===== src/Codec/Words.antt =====
-- Little-endian words: what is written is read back, and what is read is written back.
use num8_lup.Base.{ℕ, ◌+◌, ◌*◌, ◌/◌, ◌%◌, ◌^◌, ◌<◌, ◌≡◌, arith, bit_and}
use num8_lup.Base.{List, [], ◌∷◌, ◌++◌}
use num8_lup.Base.Bits.{bit_and_low, bit_or_disjoint}
use num8_lup.Codec.{read_u16_le, read_u32_le, write_u16_le, write_u32_le}

low_byte : (v : ℕ) → bit_and v 0xff ≡ v % 256
low_byte v = ground (arith, bit_and_low 8 (v % 256) (v / 256))

pub write_u16_bytes : (v : ℕ) → write_u16_le v ≡ v % 256 ∷ v / 256 % 256 ∷ []
unfolding write_u16_le
write_u16_bytes v = ground (arith, low_byte v, low_byte (v / 256))

pub write_u32_bytes :
    (v : ℕ) → write_u32_le v ≡ v % 256 ∷ v / 256 % 256 ∷ v / 65536 % 256 ∷ v / 16777216 % 256 ∷ []
unfolding write_u32_le
write_u32_bytes v =
    ground (arith, low_byte v, low_byte (v / 256), low_byte (v / 65536), low_byte (v / 16777216))

pub read_u16_sum :
    (a b : ℕ) (rest : List ℕ) → a < 256 → b < 256 → read_u16_le (a ∷ b ∷ rest) ≡ a + b * 256
unfolding read_u16_le
read_u16_sum a b rest ha hb = ground (arith, bit_or_disjoint 8 a b)

pub read_u32_sum :
    (a b c d : ℕ) (rest : List ℕ)
    → a < 256
    → b < 256
    → c < 256
    → d < 256
    → read_u32_le (a ∷ b ∷ c ∷ d ∷ rest) ≡ a + b * 256 + c * 65536 + d * 16777216
unfolding read_u32_le
read_u32_sum a b c d rest ha hb hc hd = ground (
  arith,
  bit_or_disjoint 8 a b,
  bit_or_disjoint 16 (a + b * 256) c,
  bit_or_disjoint 24 (a + b * 256 + c * 65536) d,
)

-- A 16-bit word written at the front of a buffer is read back, whatever follows it.
pub read_u16_le-write_u16_le :
    (v : ℕ) (rest : List ℕ) → v < 2 ^ 16 → read_u16_le (write_u16_le v ++ rest) ≡ v
read_u16_le-write_u16_le v rest h =
    rw (write_u16_bytes v) (ground (arith, read_u16_sum (v % 256) (v / 256 % 256) rest))

-- A 32-bit word written at the front of a buffer is read back, whatever follows it.
pub read_u32_le-write_u32_le :
    (v : ℕ) (rest : List ℕ) → v < 2 ^ 32 → read_u32_le (write_u32_le v ++ rest) ≡ v
read_u32_le-write_u32_le v rest h = rw (write_u32_bytes v) (
    ground
      (arith, read_u32_sum (v % 256) (v / 256 % 256) (v / 65536 % 256) (v / 16777216 % 256) rest))

pub write_u16_le-read_u16_le :
    (a b : ℕ) (rest : List ℕ)
    → a < 256
    → b < 256
    → write_u16_le (read_u16_le (a ∷ b ∷ rest)) ≡ a ∷ b ∷ []
write_u16_le-read_u16_le a b rest ha hb =
    rw (read_u16_sum a b rest ha hb, write_u16_bytes) (ground arith)

-- Four bytes read as a word are written back as the same bytes.
pub write_u32_le-read_u32_le :
    (a b c d : ℕ) (rest : List ℕ)
    → a < 256
    → b < 256
    → c < 256
    → d < 256
    → write_u32_le (read_u32_le (a ∷ b ∷ c ∷ d ∷ rest)) ≡ a ∷ b ∷ c ∷ d ∷ []
write_u32_le-read_u32_le a b c d rest ha hb hc hd =
    rw (read_u32_sum a b c d rest ha hb hc hd, write_u32_bytes) (ground arith)
