-- ===== src/Metadata/Defs.antt =====
-- The record and its operations. Pointers are non-NULL.
use num8_lup.Base.{
  ℕ, Bool, true, false, not, ◌&&◌, ◌⊎◌, inl, inr, List, [], ◌∷◌, ◌++◌, ltb, ◌==◌, if◌then◌else◌,
  length, get_or, take, drop,
}
use num8_lup.Codec.{read_u16_le, read_u32_le, write_u16_le, write_u32_le, crc16_ccitt_false}

abbrev pub metadata_err_none : ℕ
metadata_err_none = 0

abbrev pub metadata_err_magic : ℕ
metadata_err_magic = 1

abbrev pub metadata_err_version : ℕ
metadata_err_version = 2

abbrev pub metadata_err_reserved : ℕ
metadata_err_reserved = 3

abbrev pub metadata_err_crc : ℕ
metadata_err_crc = 4

abbrev pub metadata_err_length : ℕ
metadata_err_length = 5

abbrev pub metadata_err_io : ℕ
metadata_err_io = 6

abbrev pub format_version_1 : ℕ
format_version_1 = 1

pub record MetadataRecord : Type 0 where
  pub format_version : ℕ
  pub stream_id : ℕ
  pub stream_epoch : ℕ
  pub last_applied_op_id : ℕ
  pub reserved0 : ℕ

abbrev pub clear_record : MetadataRecord
clear_record = record {
  format_version = 0;
  stream_id = 0;
  stream_epoch = 0;
  last_applied_op_id = 0;
  reserved0 = 0;
}

abbrev pub metadata_record_size : ℕ
metadata_record_size = 26

-- The letters N8AM.
abbrev pub magic : List ℕ
magic = 0x4E ∷ 0x38 ∷ 0x41 ∷ 0x4D ∷ []

-- The bytes that the CRC is over.
unfoldable pub record_fields : MetadataRecord → List ℕ
record_fields r =
    write_u32_le r.format_version
    ++ (write_u32_le r.reserved0
        ++ (write_u32_le r.stream_id
            ++ (write_u32_le r.stream_epoch ++ write_u32_le r.last_applied_op_id)))

-- On the left the error code, with the status FAILURE; on the right the bytes.
unfoldable pub encode_record : MetadataRecord → ℕ → ℕ ⊎ List ℕ
encode_record r out_cap =
    if not (r.format_version == format_version_1)
    then inl metadata_err_version
    else if not (r.reserved0 == 0)
    then inl metadata_err_reserved
    else if ltb out_cap metadata_record_size
    then inl metadata_err_length
    else inr (magic ++ (record_fields r ++ write_u16_le (crc16_ccitt_false (record_fields r))))

unfoldable pub has_magic : List ℕ → Bool
has_magic b =
    get_or b 0 0 == 0x4E && (get_or b 1 0 == 0x38 && (get_or b 2 0 == 0x41 && get_or b 3 0 == 0x4D))

unfoldable pub read_record : List ℕ → MetadataRecord
read_record b = record {
  format_version = read_u32_le (drop 4 b);
  reserved0 = read_u32_le (drop 8 b);
  stream_id = read_u32_le (drop 12 b);
  stream_epoch = read_u32_le (drop 16 b);
  last_applied_op_id = read_u32_le (drop 20 b);
}

-- The status, `*out_record` and `*out_error_code`.
unfoldable pub decode_record : List ℕ → Bool × MetadataRecord × ℕ
decode_record b =
    let r = read_record b in
    if not (length b == metadata_record_size)
    then (false, clear_record, metadata_err_length)
    else if not (has_magic b)
    then (false, clear_record, metadata_err_magic)
    else if not (r.format_version == format_version_1)
    then (false, r, metadata_err_version)
    else if not (r.reserved0 == 0)
    then (false, r, metadata_err_reserved)
    else if not (crc16_ccitt_false (take 20 (drop 4 b)) == read_u16_le (drop 24 b))
    then (false, r, metadata_err_crc)
    else (true, r, metadata_err_none)

unfoldable pub record_matches_stream : MetadataRecord → ℕ → ℕ → Bool
record_matches_stream r stream_id stream_epoch =
    r.format_version == format_version_1
    && (r.stream_id == stream_id && r.stream_epoch == stream_epoch)
