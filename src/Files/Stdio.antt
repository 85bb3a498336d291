-- ===== src/Files/Stdio.antt =====
-- The calls of the C library that the code makes on files, and what it relies on. A path is the list
-- of its characters.
use num8_lup.Base.{ℕ, ◌≡◌, ◌≢◌, Bool, true, false, Option, none, some, List, length, take}

pub record Stdio : Type 1 where
  pub State : Type 0
  pub Handle : Type 0
  -- fopen with "wb" and with "rb".
  pub open_write : State → List ℕ → Option Handle × State
  pub open_read : State → List ℕ → Option Handle × State
  -- fwrite, with the number of bytes that it wrote.
  pub write : State → Handle → List ℕ → ℕ × State
  pub flush : State → Handle → Bool × State
  pub close : State → Handle → Bool × State
  -- fread of at most so many bytes, and fgetc, with `none` for EOF.
  pub read : State → Handle → ℕ → List ℕ × State
  pub getc : State → Handle → Option ℕ × State
  pub rename : State → List ℕ → List ℕ → Bool × State
  pub remove : State → List ℕ → State

-- The contents of the files by their paths, and the path of a handle.
pub record IsLawful (io : Stdio) (file : io.State → List ℕ → Option (List ℕ))
    (path_of : io.Handle → List ℕ) : Type 0 where
  pub open_write_path :
      (s : io.State) (p : List ℕ) (h : io.Handle) → (io.open_write s p).0 ≡ some h → path_of h ≡ p
  -- A call changes no file but its own.
  pub open_write_rest :
      (s : io.State) (p q : List ℕ) → q ≢ p → file (io.open_write s p).1 q ≡ file s q
  pub write_rest :
      (s : io.State) (h : io.Handle) (xs q : List ℕ)
      → q ≢ path_of h
      → file (io.write s h xs).1 q ≡ file s q
  pub flush_rest :
      (s : io.State) (h : io.Handle) (q : List ℕ)
      → q ≢ path_of h
      → file (io.flush s h).1 q ≡ file s q
  pub close_rest :
      (s : io.State) (h : io.Handle) (q : List ℕ)
      → q ≢ path_of h
      → file (io.close s h).1 q ≡ file s q
  pub remove_rest : (s : io.State) (p q : List ℕ) → q ≢ p → file (io.remove s p) q ≡ file s q
  -- A file that is opened, written, flushed and closed without an error holds what was written.
  pub written :
      (s : io.State) (p xs : List ℕ) (h : io.Handle)
      → (io.open_write s p).0 ≡ some h
      → let s1 = (io.open_write s p).1 in
        let s2 = (io.write s1 h xs).1 in
        let s3 = (io.flush s2 h).1 in
        (io.write s1 h xs).0 ≡ length xs
        → (io.flush s2 h).0 ≡ true
        → (io.close s3 h).0 ≡ true
        → file (io.close s3 h).1 p ≡ some xs
  -- `rename` moves the file, or fails and leaves both paths.
  pub renamed :
      (s : io.State) (p q : List ℕ)
      → (io.rename s p q).0 ≡ true
      → file (io.rename s p q).1 q ≡ file s p
  pub not_renamed :
      (s : io.State) (p q : List ℕ)
      → (io.rename s p q).0 ≡ false
      → file (io.rename s p q).1 q ≡ file s q
  -- `fread` gives a first part of a file that could be opened, a shorter one if it meets an error.
  pub reads :
      (s : io.State) (p xs : List ℕ) (h : io.Handle) (n : ℕ)
      → (io.open_read s p).0 ≡ some h
      → file s p ≡ some xs
      → let got = (io.read (io.open_read s p).1 h n).0 in got ≡ take (length got) xs
  -- `fgetc` gives EOF behind the last byte.
  pub ends :
      (s : io.State) (p xs : List ℕ) (h : io.Handle) (n : ℕ)
      → (io.open_read s p).0 ≡ some h
      → file s p ≡ some xs
      → (io.read (io.open_read s p).1 h n).0 ≡ xs
      → (io.getc (io.read (io.open_read s p).1 h n).1 h).0 ≡ none
