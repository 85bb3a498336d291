-- ===== src/Metadata/RoundTrip.antt =====
-- Encoding and decoding a record, by src/num8lora_metadata.c.
use num8_lup.Base.{
  ℕ, ◌+◌, ◌^◌, ◌<◌, ◌≤◌, ◌≡◌, ◌≢◌, inr, refl, sym, ◌∙◌, ap, subst, arith, true, false, List, [],
  ◌∷◌, ◌++◌, length, take, take_left, drop, drop_left, length-append,
}
use num8_lup.Codec.{read_u16_le, read_u32_le, write_u16_le, write_u32_le, crc16_ccitt_false}
use num8_lup.Codec.Words.{
  write_u16_bytes, write_u32_bytes, read_u16_le-write_u16_le, read_u32_le-write_u32_le,
}
use num8_lup.Codec.Detect.{crc16-IsU16, crc16_detects_byte}
use num8_lup.Metadata.Defs.{
  MetadataRecord, magic, record_fields, encode_record, has_magic, read_record, decode_record,
  record_matches_stream,
}

-- The fields hold values of their C types.
abbrev pub IsRecord : MetadataRecord → Type 0
IsRecord r = (r.stream_id < 2 ^ 32) × (r.stream_epoch < 2 ^ 32) × (r.last_applied_op_id < 2 ^ 32)

abbrev pub record_bytes : MetadataRecord → List ℕ
record_bytes r = magic ++ (record_fields r ++ write_u16_le (crc16_ccitt_false (record_fields r)))

pub encode_record_inv :
    (r : MetadataRecord) (cap : ℕ) {f : List ℕ}
    → encode_record r cap ≡ inr f
    → (r.format_version ≡ 1) × (r.reserved0 ≡ 0) × (26 ≤ cap) × (f ≡ record_bytes r)
unfolding encode_record
encode_record_inv r cap e = ground arith

fields_words :
    (r : MetadataRecord) (end : List ℕ)
    → let l = record_fields r ++ end in
      (l ≡ write_u32_le r.format_version ++ drop 4 l)
      × (drop 4 l ≡ write_u32_le r.reserved0 ++ drop 8 l)
      × (drop 8 l ≡ write_u32_le r.stream_id ++ drop 12 l)
      × (drop 12 l ≡ write_u32_le r.stream_epoch ++ drop 16 l)
      × (drop 16 l ≡ write_u32_le r.last_applied_op_id ++ drop 20 l)
      × (drop 20 l ≡ end)
      × (take 20 l ≡ record_fields r)
      × (length (record_fields r) ≡ 20)
unfolding record_fields
fields_words r end =
    rw
      (
        write_u32_bytes r.format_version,
        write_u32_bytes r.reserved0,
        write_u32_bytes r.stream_id,
        write_u32_bytes r.stream_epoch,
        write_u32_bytes r.last_applied_op_id,
      )
      (refl, refl, refl, refl, refl, refl, refl, refl)

module _ (r : MetadataRecord) (version : r.format_version ≡ 1) (reserved : r.reserved0 ≡ 0)
    (typed : IsRecord r) where
  word_at :
      (l : List ℕ) (x : ℕ) (rest : List ℕ)
      → l ≡ write_u32_le x ++ rest
      → x < 2 ^ 32
      → read_u32_le l ≡ x
  word_at l x rest e h = ap read_u32_le e ∙ read_u32_le-write_u32_le x rest h

  read_back : read_record (record_bytes r) ≡ r
  unfolding read_record
  read_back =
      let w = fields_words r (write_u16_le (crc16_ccitt_false (record_fields r))) in
      rw
        (
          word_at _ r.format_version _ w.0 (omega (arith, version)),
          word_at _ r.reserved0 _ w.1 (omega (arith, reserved)),
          word_at _ r.stream_id _ w.2 typed.0,
          word_at _ r.stream_epoch _ w.3 typed.1,
          word_at _ r.last_applied_op_id _ w.4 typed.2,
        )
        refl

  pub length-record_bytes : length (record_bytes r) ≡ 26
  length-record_bytes =
      let crc = crc16_ccitt_false (record_fields r) in
      let w = fields_words r (write_u16_le crc) in
      omega (
        arith,
        length-append (record_fields r) (write_u16_le crc),
        w.7,
        ap length (write_u16_bytes crc),
      )

  pub decode_record-bytes : decode_record (record_bytes r) ≡ (true, r, 0)
  unfolding decode_record has_magic write_u16_le
  decode_record-bytes =
      let crc = crc16_ccitt_false (record_fields r) in
      let w = fields_words r (write_u16_le crc) in
      ground (
        arith,
        version,
        reserved,
        read_back,
        length-record_bytes,
        ap crc16_ccitt_false w.6,
        ap read_u16_le w.5 ∙ read_u16_le-write_u16_le crc [] (crc16-IsU16 (record_fields r)),
      )

-- What `encode_record` writes, for fields in the ranges of their C types, `decode_record` reads
-- back without an error, and the record matches its own stream and epoch.
pub decode_record-encode_record :
    (r : MetadataRecord) (cap : ℕ) {f : List ℕ}
    → IsRecord r
    → encode_record r cap ≡ inr f
    → (decode_record f ≡ (true, r, 0)) × (record_matches_stream r r.stream_id r.stream_epoch ≡ true)
unfolding record_matches_stream
decode_record-encode_record r cap typed e =
    let i = encode_record_inv r cap e in
    (
      subst (λ b. decode_record b ≡ (true, r, 0)) (sym i.3) (decode_record-bytes r i.0 i.1 typed),
      ground (arith, i.0),
    )

-- A record with one byte of its fields changed.
abbrev pub altered : List ℕ → ℕ → ℕ → List ℕ → List ℕ
altered front a b back =
    magic ++ ((front ++ (b ∷ back)) ++ write_u16_le (crc16_ccitt_false (front ++ (a ∷ back))))

module _ (front : List ℕ) (a b : ℕ) (back : List ℕ) (size : length front + length back ≡ 19) where
  altered_fields :
      let l = (front ++ (b ∷ back)) ++ write_u16_le (crc16_ccitt_false (front ++ (a ∷ back))) in
      (take 20 l ≡ front ++ (b ∷ back))
      × (drop 20 l ≡ write_u16_le (crc16_ccitt_false (front ++ (a ∷ back))))
  altered_fields =
      let long : 20 ≡ length (front ++ (b ∷ back)) =
        omega (arith, size, length-append front (b ∷ back)) in
      (take_left (front ++ (b ∷ back)) _ 20 long, drop_left (front ++ (b ∷ back)) _ 20 long)

  -- A metadata record of which one byte behind the magic and before the CRC arrives as another
  -- byte is refused.
  pub decode_record-altered :
      a < 256 → b < 256 → a ≢ b → (decode_record (altered front a b back)).0 ≡ false
  unfolding decode_record write_u16_le
  decode_record-altered ha hb ne =
      let crc = crc16_ccitt_false (front ++ (a ∷ back)) in
      let w = altered_fields in
      ground (
        arith,
        ap crc16_ccitt_false w.0,
        ap read_u16_le w.1 ∙ read_u16_le-write_u16_le crc [] (crc16-IsU16 (front ++ (a ∷ back))),
        crc16_detects_byte front a b back ha hb ne,
      )
