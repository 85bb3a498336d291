-- ===== src/Batch/Update.antt =====
-- The numbers of an update: their validity, their bytes, and the CRC over the update's payload.
use num8_lup.Base.{
  ℕ, zero, suc, ◌/◌, ◌^◌, bit_and, Bool, true, false, not, ◌||◌, Option, none, some, List, [], ◌∷◌,
  ◌++◌, ltb, ◌==◌, if◌then◌else◌, length, take, drop, replicate,
}
use num8_lup.Base.Words.{u8}
use num8_lup.Codec.{crc_byte, read_u32_le}
use num8_lup.Batch.Types.{
  Numbers, UpdateHeader, max_value, err_internal, err_invalid_number, err_duplicate_in_batch,
  err_number_in_both,
}

-- The array that a pointer gives, and the test `count > 0u && p == NULL`.
abbrev pub array : Numbers → List ℕ
array none = []
array (some xs) = xs

abbrev pub missing : ℕ → Numbers → Bool
missing count none = ltb 0 count
missing count (some xs) = false

unfoldable pub valid_number : ℕ → Bool
valid_number v = not (ltb max_value v)

-- The inner loop: does the number occur among those that follow it?
unfoldable pub occurs : ℕ → List ℕ → Bool
occurs x [] = false
occurs x (y ∷ ys) = x == y || occurs x ys

-- The loop over one of the two arrays, with the error that it stops at.
unfoldable pub check_batch : List ℕ → Option ℕ
unfolding valid_number occurs
check_batch [] = none
check_batch (x ∷ xs) =
    if not (valid_number x)
    then some err_invalid_number
    else if occurs x xs
    then some err_duplicate_in_batch
    else check_batch xs

-- The loop over both arrays.
unfoldable pub overlap : List ℕ → List ℕ → Bool
unfolding occurs
overlap [] ys = false
overlap (x ∷ xs) ys = occurs x ys || overlap xs ys

-- `none` is the return value 1, `some` the error code with the return value 0.
unfoldable pub validate_update_numbers : UpdateHeader → Numbers → Numbers → Option ℕ
unfolding check_batch overlap
validate_update_numbers hdr remove_numbers add_numbers =
    let removes = take hdr.remove_count (array remove_numbers) in
    let adds = take hdr.add_count (array add_numbers) in
    if missing hdr.remove_count remove_numbers || missing hdr.add_count add_numbers
    then some err_internal
    else elim (check_batch removes) [
      | some error ↦ some error
      | none ↦ elim (check_batch adds) [
        | some error ↦ some error
        | none ↦ if overlap removes adds then some err_number_in_both else none
      ]
    ]

-- The loop `out[i] = ld32(ptr + 4u * i)`.
unfoldable pub read_numbers : ℕ → List ℕ → List ℕ
read_numbers zero bytes = []
read_numbers (suc n) bytes = read_u32_le bytes ∷ read_numbers n (drop 4 bytes)

-- An output array is a list of as many elements as its capacity; the loops write to its front.
abbrev pub zeroed : Numbers → Numbers
zeroed none = none
zeroed (some xs) = some (replicate (length xs) 0)

abbrev pub filled : List ℕ → Numbers → Numbers
filled xs none = none
filled xs (some out) = some (xs ++ drop (length xs) out)

abbrev pub is_null : Numbers → Bool
is_null none = true
is_null (some out) = false

abbrev pub too_small : ℕ → Numbers → Bool
too_small count none = false
too_small count (some out) = ltb (length out) count

pub record DecodedNumbers : Type 0 where
  pub status : Bool
  pub remove_numbers : Numbers
  pub add_numbers : Numbers
  pub required_remove_count : ℕ
  pub required_add_count : ℕ

unfoldable pub decode_update_numbers :
    UpdateHeader → List ℕ → ℕ → List ℕ → ℕ → Numbers → Numbers → DecodedNumbers
unfolding read_numbers
decode_update_numbers hdr remove_bytes remove_capacity add_bytes add_capacity out_remove out_add =
    let rc = hdr.remove_count in
    let ac = hdr.add_count in
    let failed : DecodedNumbers = record {
      status = false;
      remove_numbers = zeroed out_remove;
      add_numbers = zeroed out_add;
      required_remove_count = rc;
      required_add_count = ac;
    } in
    if ltb remove_capacity rc || ltb add_capacity ac
    then failed
    else if missing rc out_remove || missing ac out_add
    then failed
    else if too_small rc out_remove
    then failed
    else if too_small ac out_add
    then failed
    else record failed {
      status = true;
      remove_numbers = filled (read_numbers rc remove_bytes) (zeroed out_remove);
      add_numbers = filled (read_numbers ac add_bytes) (zeroed out_add);
    }

-- The code is that of the loop in `num8lora_codec_crc16_ccitt_false`.
unfoldable pub crc16_update_byte : ℕ → ℕ → ℕ
crc16_update_byte crc byte = crc_byte crc byte

unfoldable pub crc16_update_u16 : ℕ → ℕ → ℕ
unfolding crc16_update_byte
crc16_update_u16 crc v =
    crc16_update_byte (crc16_update_byte crc (u8 (bit_and v 0xff))) (u8 (bit_and (v / 2 ^ 8) 0xff))

unfoldable pub crc16_update_u32 : ℕ → ℕ → ℕ
unfolding crc16_update_byte
crc16_update_u32 crc v =
    crc16_update_byte
      (crc16_update_byte
        (crc16_update_byte (crc16_update_byte crc (u8 (bit_and v 0xff)))
          (u8 (bit_and (v / 2 ^ 8) 0xff)))
        (u8 (bit_and (v / 2 ^ 16) 0xff)))
      (u8 (bit_and (v / 2 ^ 24) 0xff))

-- One of the two loops over the numbers.
unfoldable pub crc16_update_numbers : ℕ → List ℕ → ℕ
crc16_update_numbers crc [] = crc
crc16_update_numbers crc (x ∷ xs) = crc16_update_numbers (crc16_update_u32 crc x) xs

-- `none` is the return value 0, with `*out_crc16` at 0.
unfoldable pub compute_update_payload_crc16 : UpdateHeader → Numbers → Numbers → Option ℕ
unfolding crc16_update_u32 crc16_update_u16 crc16_update_numbers
compute_update_payload_crc16 hdr remove_numbers add_numbers =
    if missing hdr.remove_count remove_numbers || missing hdr.add_count add_numbers
    then none
    else let c1 = crc16_update_u32 0xFFFF hdr.update_id in
      let c2 = crc16_update_u32 c1 hdr.dataset_version_from in
      let c3 = crc16_update_u32 c2 hdr.dataset_version_to in
      let c4 = crc16_update_byte (crc16_update_byte c3 hdr.remove_count) hdr.add_count in
      let c5 = crc16_update_u16 c4 0 in
      let c6 = crc16_update_numbers c5 (take hdr.remove_count (array remove_numbers)) in
      some (crc16_update_numbers c6 (take hdr.add_count (array add_numbers)))
