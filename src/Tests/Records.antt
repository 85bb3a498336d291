-- ===== src/Tests/Records.antt =====
-- The metadata record.
use num8_lup.Base.{ℕ, ◌≡◌, refl, arith, true, false, inr, none, some, List, [], ◌∷◌}
use num8_lup.Metadata.{MetadataRecord, encode_record, decode_record, record_matches_stream}
use num8_lup.Metadata.RoundTrip.{decode_record-encode_record, altered, decode_record-altered}
use num8_lup.Files.{save_file, load_file}
use num8_lup.Files.Atomic.{Outcome, Loaded, save_file-Outcome, load_file-save_file}
use num8_lup.Tests.Disk.{Disk, put, disk, on_disk, own_path, disk-IsLawful}

abbrev a_record : MetadataRecord
a_record = record {
  format_version = 1;
  stream_id = 100;
  stream_epoch = 3;
  last_applied_op_id = 41;
  reserved0 = 0;
}

abbrev record_image : List ℕ
record_image =
    78 ∷ 56 ∷ 65 ∷ 77 ∷ 1 ∷ 0 ∷ 0 ∷ 0 ∷ 0 ∷ 0 ∷ 0 ∷ 0 ∷ 100 ∷ 0 ∷ 0 ∷ 0 ∷ 3 ∷ 0 ∷ 0 ∷ 0 ∷ 41 ∷ 0 ∷ 0
    ∷ 0 ∷ 115 ∷ 113 ∷ []

record_made : encode_record a_record 64 ≡ inr record_image
unfolding encode_record num8_lup.Metadata.record_fields num8_lup.Codec.write_u32_le
    num8_lup.Codec.write_u16_le num8_lup.Codec.crc16_ccitt_false
record_made = refl

decode_record-encode_record_example :
    (decode_record record_image ≡ (true, a_record, 0))
    × (record_matches_stream a_record 100 3 ≡ true)
decode_record-encode_record_example =
    decode_record-encode_record a_record 64 (omega arith, omega arith, omega arith) record_made

-- The last operation's number arrives as 42.
decode_record-altered_example :
    (decode_record (
      altered
        (1 ∷ 0 ∷ 0 ∷ 0 ∷ 0 ∷ 0 ∷ 0 ∷ 0 ∷ 100 ∷ 0 ∷ 0 ∷ 0 ∷ 3 ∷ 0 ∷ 0 ∷ 0 ∷ [])
        41
        42
        (0 ∷ 0 ∷ 0 ∷ []))).0
    ≡ false
decode_record-altered_example =
    decode_record-altered (1 ∷ 0 ∷ 0 ∷ 0 ∷ 0 ∷ 0 ∷ 0 ∷ 0 ∷ 100 ∷ 0 ∷ 0 ∷ 0 ∷ 3 ∷ 0 ∷ 0 ∷ 0 ∷ []) 41
      42 (0 ∷ 0 ∷ 0 ∷ []) (omega arith) (omega arith) (omega arith) (omega arith)

-- The file is called n8, and holds one byte before.
abbrev name : List ℕ
name = 110 ∷ 56 ∷ []

abbrev old_disk : Disk
old_disk = put ((λ q. none), 0) name (some (7 ∷ []))

save_file-Outcome_example :
    Outcome disk on_disk own_path disk-IsLawful old_disk name a_record
      (save_file disk old_disk name a_record)
save_file-Outcome_example =
    save_file-Outcome disk on_disk own_path disk-IsLawful old_disk name a_record

load_file-save_file_example :
    let saved = (save_file disk old_disk name a_record).2 in
    Loaded disk on_disk own_path disk-IsLawful saved name a_record (load_file disk saved name)
unfolding save_file encode_record num8_lup.Files.build_temp_path num8_lup.Files.save_bytes
    num8_lup.Files.write_record_file num8_lup.Metadata.record_fields num8_lup.Codec.write_u32_le
    num8_lup.Codec.write_u16_le num8_lup.Files.replace_file_atomically num8_lup.Tests.Disk.move put
    num8_lup.Tests.Disk.path_eq num8_lup.Tests.Disk.open_there
load_file-save_file_example =
    load_file-save_file disk on_disk own_path disk-IsLawful old_disk name a_record
      (omega arith, omega arith, omega arith) refl
