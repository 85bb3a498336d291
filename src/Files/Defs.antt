-- ===== src/Files/Defs.antt =====
-- The operations of src/num8lora_meta.c, as compiled for a system with POSIX files.
use num8_lup.Base.{
  ℕ, ◌+◌, Bool, true, false, not, ◌&&◌, Option, none, some, List, [], ◌∷◌, ◌++◌, inl, inr, ltb,
  ◌==◌, if◌then◌else◌, length,
}
use num8_lup.Metadata.{
  MetadataRecord, clear_record, encode_record, decode_record, metadata_err_none,
  metadata_err_length, metadata_err_io,
}
use num8_lup.Files.Stdio.{Stdio}

-- The letters .tmp.
abbrev pub temp_suffix : List ℕ
temp_suffix = 0x2E ∷ 0x74 ∷ 0x6D ∷ 0x70 ∷ []

unfoldable pub build_temp_path : ℕ → List ℕ → Option (List ℕ)
build_temp_path out_cap path =
    if ltb out_cap (length path + 4 + 1) then none else some (path ++ temp_suffix)

module _ (io : Stdio) where
  unfoldable pub write_record_file : io.State → io.Handle → List ℕ → Bool × io.State
  write_record_file s f bytes =
      let (count, s1) = io.write s f bytes in
      let (flushed, s2) = io.flush s1 f in
      let written = count == length bytes in
      let s3 = if written then s2 else s1 in
      let (closed, s4) = io.close s3 f in (written && (flushed && closed), s4)

  unfoldable pub replace_file_atomically : io.State → List ℕ → List ℕ → Bool × io.State
  replace_file_atomically s temp_path final_path = io.rename s temp_path final_path

  -- The part from `fopen` on: the status, `*out_error_code` and the files.
  unfoldable pub save_bytes : io.State → List ℕ → List ℕ → List ℕ → Bool × ℕ × io.State
  save_bytes s path temp_path bytes =
      let (opened, s1) = io.open_write s temp_path in
      elim opened [
        | none ↦ (false, metadata_err_io, s1)
        | some f ↦
            let (written, s2) = write_record_file s1 f bytes in
            let (replaced, s3) = replace_file_atomically s2 temp_path path in
            if not written
            then (false, metadata_err_io, io.remove s2 temp_path)
            else if not replaced
            then (false, metadata_err_io, io.remove s3 temp_path)
            else (true, metadata_err_none, s3)
      ]

  unfoldable pub save_file : io.State → List ℕ → MetadataRecord → Bool × ℕ × io.State
  save_file s path r = elim (encode_record r 26) [
    | inl error ↦ (false, error, s)
    | inr bytes ↦ elim (build_temp_path 1024 path) [
      | none ↦ (false, metadata_err_io, s)
      | some temp_path ↦ save_bytes s path temp_path bytes
    ]
  ]

  -- The status, `*out_record`, `*out_error_code` and the files.
  unfoldable pub load_file : io.State → List ℕ → Bool × MetadataRecord × ℕ × io.State
  load_file s path =
      let (opened, s1) = io.open_read s path in
      elim opened [
        | none ↦ (false, clear_record, metadata_err_io, s1)
        | some f ↦
            let (b, s2) = io.read s1 f 26 in
            let (extra, s3) = io.getc s2 f in
            let (closed, s4) = io.close s3 f in
            let (status, r, error) = decode_record b in
            if not (length b == 26)
            then (false, clear_record, metadata_err_length, (io.close s2 f).1)
            else elim extra [
              | some c ↦ (false, clear_record, metadata_err_length, s4)
              | none ↦
                  if not closed
                  then (false, clear_record, metadata_err_io, s4)
                  else (status, r, error, s4)
            ]
      ]
