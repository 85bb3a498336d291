-- ===== src/Batch/Words.antt =====
-- Arrays of numbers as bytes, and the CRC over an update's payload as a CRC over bytes.
use num8_lup.Base.{
  ℕ, ◌*◌, ◌^◌, ◌<◌, ◌≡◌, refl, sym, ◌∙◌, ap, arith, some, none, List, [], ◌∷◌, ◌++◌, length, take,
  drop, All, ◌||◌, if◌then◌else◌,
}
use num8_lup.Codec.{crc_from, crc16_ccitt_false, write_u16_le, write_u32_le}
use num8_lup.Codec.Words.{write_u32_bytes, read_u32_le-write_u32_le}
use num8_lup.Codec.Detect.{crc_from-append}
use num8_lup.Batch.Types.{UpdateHeader, Numbers}
use num8_lup.Batch.Update.{
  array, missing, read_numbers, crc16_update_byte, crc16_update_u16, crc16_update_u32,
  crc16_update_numbers, compute_update_payload_crc16,
}
use num8_lup.Batch.Encode.{write_numbers, update_bytes}
use mathlib.Core.List.{append_assoc}

abbrev pub IsWord : ℕ → Type 0
IsWord x = x < 2 ^ 32

pub length-write_numbers : (xs : List ℕ) → length (write_numbers xs) ≡ length xs * 4
unfolding write_numbers
length-write_numbers [] = omega arith
length-write_numbers (x ∷ xs) = rw (write_u32_bytes x) (omega (arith, length-write_numbers xs))

-- What one loop wrote, the other one reads, whatever follows.
pub read_numbers-write_numbers :
    (xs rest : List ℕ) → All IsWord xs → read_numbers (length xs) (write_numbers xs ++ rest) ≡ xs
unfolding read_numbers write_numbers
read_numbers-write_numbers [] rest h = refl
read_numbers-write_numbers (x ∷ xs) rest h =
    rw
      (
        append_assoc (write_u32_le x) (write_numbers xs) rest,
        read_u32_le-write_u32_le x (write_numbers xs ++ rest) h.0,
        next,
      )
      (ap (λ l. x ∷ l) (read_numbers-write_numbers xs rest h.1))
  where
    next : drop 4 (write_u32_le x ++ (write_numbers xs ++ rest)) ≡ write_numbers xs ++ rest
    next = rw (write_u32_bytes x)

update_u32 : (crc v : ℕ) → crc16_update_u32 crc v ≡ crc_from crc (write_u32_le v)
unfolding crc16_update_u32 crc16_update_byte crc_from write_u32_le
update_u32 crc v = refl

update_u16 : (crc v : ℕ) → crc16_update_u16 crc v ≡ crc_from crc (write_u16_le v)
unfolding crc16_update_u16 crc16_update_byte crc_from write_u16_le
update_u16 crc v = refl

update_numbers :
    (crc : ℕ) (xs : List ℕ) → crc16_update_numbers crc xs ≡ crc_from crc (write_numbers xs)
unfolding crc16_update_numbers write_numbers
update_numbers crc [] = unfold crc_from in refl
update_numbers crc (x ∷ xs) =
    rw (update_u32 crc x, update_numbers (crc_from crc (write_u32_le x)) xs)
      (sym (crc_from-append crc (write_u32_le x) (write_numbers xs)))

-- The same steps in front of more bytes.
module _ (crc : ℕ) where
  u32_step :
      (v : ℕ) (rest : List ℕ)
      → crc_from crc (write_u32_le v ++ rest) ≡ crc_from (crc16_update_u32 crc v) rest
  u32_step v rest =
      crc_from-append crc (write_u32_le v) rest ∙ ap (λ c. crc_from c rest) (sym (update_u32 crc v))

  u16_step :
      (v : ℕ) (rest : List ℕ)
      → crc_from crc (write_u16_le v ++ rest) ≡ crc_from (crc16_update_u16 crc v) rest
  u16_step v rest =
      crc_from-append crc (write_u16_le v) rest ∙ ap (λ c. crc_from c rest) (sym (update_u16 crc v))

  numbers_step :
      (xs rest : List ℕ)
      → crc_from crc (write_numbers xs ++ rest) ≡ crc_from (crc16_update_numbers crc xs) rest
  numbers_step xs rest =
      crc_from-append crc (write_numbers xs) rest
      ∙ ap (λ c. crc_from c rest) (sym (update_numbers crc xs))

  bytes_step :
      (x y : ℕ) (rest : List ℕ)
      → crc_from crc (x ∷ y ∷ rest) ≡ crc_from (crc16_update_byte (crc16_update_byte crc x) y) rest
  unfolding crc_from crc16_update_byte
  bytes_step x y rest = refl

payload_crc :
    (hdr : UpdateHeader) (xs ys : List ℕ)
    → crc_from 0xFFFF (update_bytes hdr xs ys)
      ≡ crc16_update_numbers
          (crc16_update_numbers
            (crc16_update_u16
              (crc16_update_byte
                (crc16_update_byte
                  (crc16_update_u32
                    (crc16_update_u32
                      (crc16_update_u32 0xFFFF hdr.update_id)
                      hdr.dataset_version_from)
                    hdr.dataset_version_to)
                  hdr.remove_count)
                hdr.add_count)
              0)
            xs)
          ys
unfolding update_bytes
payload_crc hdr xs ys =
    u32_step _ hdr.update_id _
    ∙ u32_step _ hdr.dataset_version_from _
    ∙ u32_step _ hdr.dataset_version_to _
    ∙ bytes_step _ hdr.remove_count hdr.add_count _
    ∙ u16_step _ 0 _
    ∙ numbers_step _ xs _
    ∙ sym (update_numbers _ ys)

-- The CRC that `compute_update_payload_crc16` updates value by value is the CRC-16 of the bytes
-- that `encode_update_data` writes as the payload; it fails if and only if an array that has
-- numbers is missing.
pub compute_update_payload_crc16_lem :
    (hdr : UpdateHeader) (remove_numbers add_numbers : Numbers)
    → compute_update_payload_crc16 hdr remove_numbers add_numbers ≡ (
        if missing hdr.remove_count remove_numbers || missing hdr.add_count add_numbers
        then none
        else some (
            crc16_ccitt_false (
              update_bytes hdr
                (take hdr.remove_count (array remove_numbers))
                (take hdr.add_count (array add_numbers)))))
unfolding crc16_ccitt_false compute_update_payload_crc16
compute_update_payload_crc16_lem hdr remove_numbers add_numbers =
    rw
      (
        payload_crc hdr (take hdr.remove_count (array remove_numbers))
            (take hdr.add_count (array add_numbers)),
        compute_update_payload_crc16,
      )
      refl
