-- ===== src/Op/Shape.antt =====
-- The parts of a frame as a decoder finds them: the CRC at the end, the header at the front.
use num8_lup.Base.{
  ℕ, zero, suc, refl, ◌+◌, ◌-◌, ◌/◌, ◌%◌, ◌^◌, ◌≤◌, ◌<◌, ◌≡◌, arith, ◌∙◌, sym, true, List, [], ◌∷◌,
  ◌++◌, drop, take, length,
}
use num8_lup.Base.{get_or, length-append, take_left, drop_left}
use num8_lup.Codec.{write_u16_le, crc16_ccitt_false}
use num8_lup.Codec.Words.{read_u16_le-write_u16_le, write_u16_bytes, read_u16_sum}
use num8_lup.Codec.Detect.{crc16-IsU16}
use num8_lup.Op.Types.{CommonHeader, protocol_version}
use num8_lup.Op.Encode.{header, seal}
use num8_lup.Op.Decode.{
  validate_frame_crc, decode_common_header, header_fits, validate_common_header,
}
use mathlib.Core.List.{append-nil, append_assoc}

pub length-seal : (body : List ℕ) → length (seal body) ≡ length body + 2
unfolding seal write_u16_le
length-seal body = length-append body _

-- What `seal` closes passes the CRC test.
pub validate_frame_crc-seal :
    (body : List ℕ) → 8 ≤ length body → validate_frame_crc (seal body) ≡ true
unfolding validate_frame_crc seal
validate_frame_crc-seal body h =
    rw (length-seal body, front, back, read_u16_le-write_u16_le _ [] (crc16-IsU16 body))
      (ground arith)
  where
    front : take (length body + 2 - 2) (seal body) ≡ body
    front = take_left body _ _ (omega arith)

    back : drop (length body + 2 - 2) (seal body) ≡ write_u16_le (crc16_ccitt_false body) ++ []
    back = drop_left body _ _ (omega arith) ∙ sym (append-nil _)

pub header_bytes :
    (t s r q : ℕ)
    → header t s r q
      ≡ 1 ∷ t ∷ s % 256 ∷ s / 256 % 256 ∷ r % 256 ∷ r / 256 % 256 ∷ q % 256 ∷ q / 256 % 256 ∷ []
unfolding header
header_bytes t s r q = rw (write_u16_bytes s, write_u16_bytes r, write_u16_bytes q)

abbrev pub header_of : ℕ → ℕ → ℕ → ℕ → CommonHeader
header_of t s r q = record {
  protocol_version = protocol_version;
  msg_type = t;
  sender_id = s;
  receiver_id = r;
  seq = q;
}

pub decode_common_header-header :
    (t s r q : ℕ) (rest : List ℕ)
    → s < 2 ^ 16
    → r < 2 ^ 16
    → q < 2 ^ 16
    → decode_common_header (header t s r q ++ rest) ≡ (true, header_of t s r q)
unfolding decode_common_header
decode_common_header-header t s r q rest hs hr hq = rw (header_bytes t s r q) (
    ground (
      arith,
      read_u16_sum (s % 256) (s / 256 % 256)
          (r % 256 ∷ r / 256 % 256 ∷ q % 256 ∷ q / 256 % 256 ∷ rest),
      read_u16_sum (r % 256) (r / 256 % 256) (q % 256 ∷ q / 256 % 256 ∷ rest),
      read_u16_sum (q % 256) (q / 256 % 256) rest,
    ))

pub length-header : (t s r q : ℕ) → length (header t s r q) ≡ 8
length-header t s r q = rw (header_bytes t s r q)

-- A word at offset 8 + k stands k bytes into the payload.
pub drop-drop : (k m n : ℕ) (xs : List ℕ) → k ≡ m + n → drop k xs ≡ drop n (drop m xs)
drop-drop k zero n xs e = let e' : k ≡ n = omega arith in rw e'
drop-drop zero (suc m) n xs e = absurd (omega arith)
drop-drop (suc k) (suc m) zero [] e = refl
drop-drop (suc k) (suc m) (suc n) [] e = refl
drop-drop (suc k) (suc m) n (x ∷ xs) e = drop-drop k m n xs (omega arith)

pub get_or-drop : (k m n : ℕ) (xs : List ℕ) → k ≡ m + n → get_or xs k 0 ≡ get_or (drop m xs) n 0
get_or-drop k zero n xs e = let e' : k ≡ n = omega arith in rw e'
get_or-drop zero (suc m) n xs e = absurd (omega arith)
get_or-drop (suc k) (suc m) n [] e = refl
get_or-drop (suc k) (suc m) n (x ∷ xs) e = get_or-drop k m n xs (omega arith)

-- A sealed frame splits into its header, its payload and its CRC.
module _ (t s r q : ℕ) (payload : List ℕ) where
  abbrev pub frame : List ℕ
  frame = seal (header t s r q ++ payload)

  -- The payload with the CRC behind it.
  abbrev pub tail : List ℕ
  tail = payload ++ write_u16_le (crc16_ccitt_false (header t s r q ++ payload))

  frame_split : frame ≡ header t s r q ++ tail
  unfolding seal
  frame_split = append_assoc (header t s r q) payload _

  pub length-frame : length frame ≡ length payload + 10
  length-frame = omega (
    arith,
    length-seal (header t s r q ++ payload),
    length-append (header t s r q) payload,
    length-header t s r q,
  )

  pub drop-frame : drop 8 frame ≡ tail
  drop-frame = rw frame_split (drop_left _ tail 8 (sym (length-header t s r q)))

  pub validate_frame_crc-frame : validate_frame_crc frame ≡ true
  validate_frame_crc-frame =
      validate_frame_crc-seal _
        (omega (arith, length-append (header t s r q) payload, length-header t s r q))

  module _ (hs : s < 2 ^ 16) (hr : r < 2 ^ 16) (hq : q < 2 ^ 16) where
    pub decode_common_header-frame : decode_common_header frame ≡ (true, header_of t s r q)
    decode_common_header-frame = rw frame_split (decode_common_header-header t s r q tail hs hr hq)

    pub validate_common_header-frame :
        (h : CommonHeader)
        → validate_common_header frame t h ≡ (header_fits t (header_of t s r q), header_of t s r q)
    unfolding validate_common_header
    validate_common_header-frame h = rw (validate_frame_crc-frame, decode_common_header-frame)
