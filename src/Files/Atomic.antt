-- ===== src/Files/Atomic.antt =====
-- Saving and loading a record, by src/num8lora_meta.c.
use num8_lup.Base.{
  ℕ, zero, suc, ◌≡◌, ◌≢◌, ◌⊎◌, inl, inr, refl, sym, ap, subst, ◌∙◌, arith, Bool, true, false, ◌==◌,
  Option, none, some, List, [], ◌∷◌, ◌++◌, length, length-append, take, Bool-cases, Option-cases,
}
use num8_lup.Metadata.{MetadataRecord, clear_record, encode_record, decode_record}
use num8_lup.Metadata.RoundTrip.{
  IsRecord, record_bytes, encode_record_inv, length-record_bytes, decode_record-bytes,
}
use num8_lup.Files.Stdio.{Stdio, IsLawful}
use num8_lup.Files.Defs.{
  temp_suffix, build_temp_path, write_record_file, replace_file_atomically, save_bytes, save_file,
  load_file,
}

build_temp_path_lem :
    (cap : ℕ) (path temp : List ℕ) → build_temp_path cap path ≡ some temp → path ≢ temp
unfolding build_temp_path
build_temp_path_lem cap path temp e same =
    let made : path ++ temp_suffix ≡ temp = ground (arith, e) in
    absurd (omega (arith, ap length (made ∙ sym same), length-append path temp_suffix))

take_whole : (xs : List ℕ) (n : ℕ) → length xs ≡ n → take n xs ≡ xs
take_whole [] zero e = refl
take_whole [] (suc n) e = refl
take_whole (x ∷ xs) zero e = absurd (omega (arith, e))
take_whole (x ∷ xs) (suc n) e = ap (λ ys. x ∷ ys) (take_whole xs n (omega (arith, e)))

module _ (io : Stdio) (file : io.State → List ℕ → Option (List ℕ)) (path_of : io.Handle → List ℕ)
    (lawful : IsLawful io file path_of) where
  write_rest_lem :
      (s : io.State) (f : io.Handle) (bytes q : List ℕ)
      → q ≢ path_of f
      → file (write_record_file io s f bytes).1 q ≡ file s q
  unfolding write_record_file
  write_rest_lem s f bytes q other =
      let s1 = (io.write s f bytes).1 in
      let s2 = (io.flush s1 f).1 in
      ground (
        arith,
        lawful.write_rest s f bytes q other,
        lawful.flush_rest s1 f q other,
        lawful.close_rest s1 f q other,
        lawful.close_rest s2 f q other,
      )

  write_done :
      (s : io.State) (p bytes : List ℕ) (f : io.Handle)
      → (io.open_write s p).0 ≡ some f
      → let w = write_record_file io (io.open_write s p).1 f bytes in
        w.0 ≡ true → file w.1 p ≡ some bytes
  unfolding write_record_file
  write_done s p bytes f opened done = ground (arith, done, lawful.written s p bytes f opened)

  -- The file at the path is the new one, with the status SUCCESS, or the old one, with FAILURE.
  abbrev pub IsSaved : io.State → List ℕ → List ℕ → Bool × ℕ × io.State → Type 0
  IsSaved s path bytes r =
      ((r.0 ≡ true) × (file r.2 path ≡ some bytes))
      ⊎ ((r.0 ≡ false) × (file r.2 path ≡ file s path))

  save_bytes_go :
      (s : io.State) (path temp bytes : List ℕ)
      → path ≢ temp
      → (opened : Option io.Handle) → (io.open_write s temp).0 ≡ opened
      → IsSaved s path bytes (save_bytes io s path temp bytes)
  unfolding save_bytes replace_file_atomically
  save_bytes_go s path temp bytes other none e =
      ground (arith, e, lawful.open_write_rest s temp path other)
  save_bytes_go s path temp bytes other (some f) e =
      let s1 = (io.open_write s temp).1 in
      let s2 = (write_record_file io s1 f bytes).1 in
      let s3 = (io.rename s2 temp path).1 in
      let away : path ≢ path_of f = λ same. other (same ∙ lawful.open_write_path s temp f e) in
      ground (
        arith,
        e,
        lawful.open_write_rest s temp path other,
        write_rest_lem s1 f bytes path away,
        write_done s temp bytes f e,
        lawful.renamed s2 temp path,
        lawful.not_renamed s2 temp path,
        lawful.remove_rest s2 temp path other,
        lawful.remove_rest s3 temp path other,
      )

  -- A saved file, or the old one.
  abbrev pub Outcome : io.State → List ℕ → MetadataRecord → Bool × ℕ × io.State → Type 0
  Outcome s path r res =
      ((res.0 ≡ true)
        × (r.format_version ≡ 1)
        × (r.reserved0 ≡ 0)
        × (file res.2 path ≡ some (record_bytes r)))
      ⊎ ((res.0 ≡ false) × (file res.2 path ≡ file s path))

  save_file_go :
      (s : io.State) (path : List ℕ) (r : MetadataRecord)
      → (encoded : ℕ ⊎ List ℕ) → (temp : Option (List ℕ)) → encode_record r 26 ≡ encoded
      → build_temp_path 1024 path ≡ temp
      → Outcome s path r (save_file io s path r)
  unfolding save_file
  save_file_go s path r (inl error) temp e t = inr (ground (arith, e))
  save_file_go s path r (inr bytes) none e t = inr (ground (arith, e, t))
  save_file_go s path r (inr bytes) (some temp) e t =
      let i = encode_record_inv r 26 e in
      let other = build_temp_path_lem 1024 path temp t in
      ground (arith, e, t, i, save_bytes_go s path temp bytes other _ refl)

  -- On files that behave as the C library and a renaming system document, `save_file` either
  -- succeeds, and then the record has the current format and the file at the path holds its bytes,
  -- or fails, and then the file at the path is as it was, whichever call failed.
  pub save_file-Outcome :
      (s : io.State) (path : List ℕ) (r : MetadataRecord) → Outcome s path r (save_file io s path r)
  save_file-Outcome s path r = save_file_go s path r _ _ refl refl

  -- What fails of an opened file: `fread`, which gives less than the 26 bytes, or `fclose`.
  abbrev pub OpenedFails : io.State → List ℕ → io.Handle → Type 0
  OpenedFails s path f =
      let (got, s2) = io.read (io.open_read s path).1 f 26 in
      (length got ≢ 26) ⊎ ((io.close (io.getc s2 f).1 f).0 ≡ false)

  -- A call of `load_file` fails: `fopen`, or one on the opened file.
  abbrev pub CallFails : io.State → List ℕ → Type 0
  CallFails s path =
      ((io.open_read s path).0 ≡ none)
      ⊎ ((f : io.Handle) × ((io.open_read s path).0 ≡ some f) × OpenedFails s path f)

  -- The record, or the cleared one exactly if a call fails.
  abbrev pub Loaded :
      io.State → List ℕ → MetadataRecord → Bool × MetadataRecord × ℕ × io.State → Type 0
  Loaded s path r res =
      ((¬ CallFails s path) × (res.0 ≡ true) × (res.1 ≡ r) × (res.2 ≡ 0))
      ⊎ (CallFails s path × (res.0 ≡ false) × (res.1 ≡ clear_record))

  opened_only :
      (s : io.State) (path : List ℕ) (f : io.Handle)
      → (io.open_read s path).0 ≡ some f
      → ¬ OpenedFails s path f
      → ¬ CallFails s path
  opened_only s path f opened works (inl e) = cc
  opened_only s path f opened works (inr (f', opened', fails)) =
      let same : f' ≡ f = cc in works (subst (λ g. OpenedFails s path g) same fails)

  module _ (s : io.State) (path : List ℕ) (r : MetadataRecord) (typed : IsRecord r)
      (version : r.format_version ≡ 1) (reserved : r.reserved0 ≡ 0)
      (holds : file s path ≡ some (record_bytes r)) where
    load_opened :
        (f : io.Handle) → (io.open_read s path).0 ≡ some f → Loaded s path r (load_file io s path)
    unfolding load_file
    load_opened f opened = elim (Bool-cases (length got == 26)) [
      | inr short ↦ inr (
        inr (f, opened, inl (ground (arith, short))),
        ground (arith, opened, short),
        ground (arith, opened, short),
      )
      | inl full ↦ elim (Bool-cases (io.close (io.getc s2 f).1 f).0) [
        | inr unclosed ↦ inr (
          inr (f, opened, inr unclosed),
          ground (arith, opened, full, unclosed, ended full),
          ground (arith, opened, full, unclosed, ended full),
        )
        | inl closed ↦ inl (
          opened_only s path f opened (works full closed),
          ground (arith, opened, full, closed, ended full, decoded full),
          ground (arith, opened, full, closed, ended full, decoded full),
          ground (arith, opened, full, closed, ended full, decoded full),
        )
      ]
    ]
      where
        got : List ℕ
        got = (io.read (io.open_read s path).1 f 26).0

        s2 : io.State
        s2 = (io.read (io.open_read s path).1 f 26).1

        works :
            (length got == 26) ≡ true
            → (io.close (io.getc s2 f).1 f).0 ≡ true
            → ¬ OpenedFails s path f
        works full closed (inl short) = short (ground (arith, full))
        works full closed (inr unclosed) = cc

        whole : (length got == 26) ≡ true → got ≡ record_bytes r
        whole full =
            let n : length got ≡ 26 = ground (arith, full) in
            lawful.reads s path (record_bytes r) f 26 opened holds
            ∙ ap (λ k. take k (record_bytes r)) n
            ∙ take_whole (record_bytes r) 26 (length-record_bytes r version reserved typed)

        ended : (length got == 26) ≡ true → (io.getc s2 f).0 ≡ none
        ended full = lawful.ends s path (record_bytes r) f 26 opened holds (whole full)

        decoded : (length got == 26) ≡ true → decode_record got ≡ (true, r, 0)
        decoded full = ap decode_record (whole full) ∙ decode_record-bytes r version reserved typed

    load_lem : Loaded s path r (load_file io s path)
    unfolding load_file
    load_lem = elim (Option-cases (io.open_read s path).0) [
      | inl e ↦ inr (inl e, ground (arith, e), ground (arith, e))
      | inr (f, e) ↦ load_opened f e
    ]

  -- On files that behave as documented, a record with fields in the ranges of their C types that
  -- `save_file` saved is what `load_file` loads from the same path, without an error, if the file
  -- can be opened, read whole and closed, and otherwise it fails with a cleared record.
  pub load_file-save_file :
      (s : io.State) (path : List ℕ) (r : MetadataRecord)
      → IsRecord r
      → (save_file io s path r).0 ≡ true
      → let s1 = (save_file io s path r).2 in Loaded s1 path r (load_file io s1 path)
  load_file-save_file s path r typed done = elim (save_file-Outcome s path r) [
    | inl c ↦ load_lem (save_file io s path r).2 path r typed c.1 c.2 c.3
    | inr c ↦ absurd (ground (arith, done, c.0))
  ]
