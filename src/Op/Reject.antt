-- ===== src/Op/Reject.antt =====
-- One changed byte in front of the CRC: no decoder accepts the frame.
use num8_lup.Base.{
  ℕ, ◌+◌, ◌-◌, ◌<◌, ◌≡◌, ◌≢◌, arith, ◌∙◌, sym, false, List, [], ◌∷◌, ◌++◌, drop, take, length,
  length-append, take_left, drop_left,
}
use num8_lup.Codec.{write_u16_le, crc16_ccitt_false}
use num8_lup.Codec.Words.{read_u16_le-write_u16_le}
use num8_lup.Codec.Detect.{crc16-IsU16, crc16_detects_byte}
use num8_lup.Op.Types.{CommonHeader}
use num8_lup.Op.Decode.{
  validate_frame_crc, validate_common_header, decode_beacon, decode_request, decode_data,
  decode_ack, decode_nack,
}
use mathlib.Core.List.{append-nil}

-- The frame that `seal (front ++ (a ∷ back))` becomes when the byte `a` arrives as `b`.
abbrev pub corrupted : List ℕ → ℕ → ℕ → List ℕ → List ℕ
corrupted front a b back =
    (front ++ (b ∷ back)) ++ write_u16_le (crc16_ccitt_false (front ++ (a ∷ back)))

module _ (front : List ℕ) (a b : ℕ) (back : List ℕ) (ha : a < 256) (hb : b < 256) (ne : a ≢ b) where
  crc_fails : validate_frame_crc (corrupted front a b back) ≡ false
  unfolding validate_frame_crc write_u16_le
  crc_fails =
      rw (length_of, head, last, read_u16_le-write_u16_le _ [] (crc16-IsU16 (front ++ (a ∷ back))))
        (ground (arith, crc16_detects_byte front a b back ha hb ne))
    where
      body : List ℕ
      body = front ++ (b ∷ back)

      length_of : length (corrupted front a b back) ≡ length body + 2
      length_of = length-append body _

      head : take (length body + 2 - 2) (corrupted front a b back) ≡ body
      head = take_left body _ _ (omega arith)

      last :
          drop (length body + 2 - 2) (corrupted front a b back)
          ≡ write_u16_le (crc16_ccitt_false (front ++ (a ∷ back))) ++ []
      last = drop_left body _ _ (omega arith) ∙ sym (append-nil _)

  -- If one byte before the CRC of a sealed frame arrives as another byte, then all five decoders
  -- reject the frame.
  pub decoders_reject_corrupted :
      (h : CommonHeader)
      → let f = corrupted front a b back in
        ((decode_beacon f h).0 ≡ false)
        × ((decode_request f h).0 ≡ false)
        × ((decode_data f h).0 ≡ false)
        × ((decode_ack f h).0 ≡ false)
        × ((decode_nack f h).0 ≡ false)
  unfolding decode_beacon decode_request decode_data decode_ack decode_nack validate_common_header
  decoders_reject_corrupted h = ground (arith, crc_fails)
