-- ===== src/Tests/Disk.antt =====
-- A disk on which every call succeeds: the files by their paths, and how far the open one is read.
use num8_lup.Base.{
  ℕ, zero, suc, ◌+◌, ◌≡◌, ◌≢◌, ◌∙◌, refl, ap, subst, arith, Bool, true, false, ◌&&◌, Option, none,
  some, List, [], ◌∷◌, ◌++◌, ◌==◌, if◌then◌else◌, length, take, drop,
}
use num8_lup.Files.Stdio.{Stdio, IsLawful}

unfoldable pub path_eq : List ℕ → List ℕ → Bool
path_eq [] [] = true
path_eq [] (y ∷ ys) = false
path_eq (x ∷ xs) [] = false
path_eq (x ∷ xs) (y ∷ ys) = x == y && path_eq xs ys

path_eq_refl : (p : List ℕ) → path_eq p p ≡ true
unfolding path_eq
path_eq_refl [] = refl
path_eq_refl (x ∷ xs) = ground (arith, path_eq_refl xs)

path_eq_sound : (p q : List ℕ) → path_eq p q ≡ true → p ≡ q
unfolding path_eq
path_eq_sound [] [] e = refl
path_eq_sound [] (y ∷ ys) e = cc
path_eq_sound (x ∷ xs) [] e = cc
path_eq_sound (x ∷ xs) (y ∷ ys) e = ground (arith, e, path_eq_sound xs ys)

path_ne : (p q : List ℕ) → p ≢ q → path_eq p q ≡ false
path_ne p q h = ground (arith, h, path_eq_sound p q)

abbrev pub Disk : Type 0
Disk = (List ℕ → Option (List ℕ)) × ℕ

abbrev pub content : Option (List ℕ) → List ℕ
content none = []
content (some xs) = xs

abbrev pub front : List ℕ → Option ℕ
front [] = none
front (x ∷ xs) = some x

unfoldable pub put : Disk → List ℕ → Option (List ℕ) → Disk
put d p xs = ((λ q. if path_eq q p then xs else d.0 q), 0)

put_same : (d : Disk) (p : List ℕ) (xs : Option (List ℕ)) → (put d p xs).0 p ≡ xs
unfolding put
put_same d p xs = ground (arith, path_eq_refl p)

put_rest : (d : Disk) (p q : List ℕ) (xs : Option (List ℕ)) → q ≢ p → (put d p xs).0 q ≡ d.0 q
unfolding put
put_rest d p q xs h = ground (arith, path_ne q p h)

unfoldable pub move : Disk → List ℕ → List ℕ → Bool × Disk
move d p q = elim (d.0 p) [ none ↦ (false, d) | some xs ↦ (true, put (put d p none) q (some xs)) ]

move_done : (d : Disk) (p q : List ℕ) → (move d p q).0 ≡ true → (move d p q).1.0 q ≡ d.0 p
unfolding move
move_done d p q e = go (d.0 p) refl
  where
    go : (o : Option (List ℕ)) → d.0 p ≡ o → (move d p q).1.0 q ≡ d.0 p
    go none h = absurd (ground (arith, e, h))
    go (some xs) h = ground (arith, h, put_same (put d p none) q (some xs))

move_failed : (d : Disk) (p q : List ℕ) → (move d p q).0 ≡ false → (move d p q).1.0 q ≡ d.0 q
unfolding move
move_failed d p q e = ground (arith, e)

unfoldable pub open_there : Disk → List ℕ → Option (List ℕ) × Disk
open_there d p = elim (d.0 p) [ none ↦ (none, d) | some xs ↦ (some p, (d.0, 0)) ]

open_there_lem :
    (d : Disk) (p h : List ℕ)
    → (open_there d p).0 ≡ some h
    → (h ≡ p) × ((open_there d p).1.0 ≡ d.0) × ((open_there d p).1.1 ≡ 0)
unfolding open_there
open_there_lem d p h e = ground (arith, e)

written_lem :
    (d : Disk) (p h xs : List ℕ)
    → p ≡ h
    → (put (put d p (some [])) h (some (content ((put d p (some [])).0 h) ++ xs))).0 p ≡ some xs
written_lem d p h xs same =
    subst
      (λ k.
        (put (put d p (some [])) k (some (content ((put d p (some [])).0 k) ++ xs))).0 p ≡ some xs)
      same
      (put_same (put d p (some [])) p (some (content ((put d p (some [])).0 p) ++ xs))
        ∙ ap (λ o. some (content o ++ xs)) (put_same d p (some [])))

read_lem :
    (d : Disk) (p h xs : List ℕ) (n : ℕ)
    → (open_there d p).0 ≡ some h
    → d.0 p ≡ some xs
    → drop ((open_there d p).1.1 + n) (content ((open_there d p).1.0 h)) ≡ drop n xs
read_lem d p h xs n e there =
    let i = open_there_lem d p h e in
    let start : 0 + n ≡ n = omega arith in rw (i.0, i.1, i.2, there) (ap (λ k. drop k xs) start)

read_start :
    (d : Disk) (p h xs : List ℕ)
    → (open_there d p).0 ≡ some h
    → d.0 p ≡ some xs
    → drop (open_there d p).1.1 (content ((open_there d p).1.0 h)) ≡ xs
read_start d p h xs e there = let i = open_there_lem d p h e in rw (i.0, i.1, i.2, there) refl

take_prefix : (n : ℕ) (xs : List ℕ) → take n xs ≡ take (length (take n xs)) xs
take_prefix zero xs = refl
take_prefix (suc n) [] = refl
take_prefix (suc n) (x ∷ xs) = ap (λ l. x ∷ l) (take_prefix n xs)

take_all : (n : ℕ) (xs : List ℕ) → take n xs ≡ xs → drop n xs ≡ []
take_all zero [] e = refl
take_all zero (x ∷ xs) e = cc
take_all (suc n) [] e = refl
take_all (suc n) (x ∷ xs) e = take_all n xs (cc)

abbrev pub disk : Stdio
disk = record {
  State = Disk;
  Handle = List ℕ;
  open_write = λ d p. (some p, put d p (some []));
  open_read = open_there;
  write = λ d h xs. (length xs, put d h (some (content (d.0 h) ++ xs)));
  flush = λ d h. (true, d);
  close = λ d h. (true, d);
  read = λ d h n. (take n (drop d.1 (content (d.0 h))), (d.0, d.1 + n));
  getc = λ d h. (front (drop d.1 (content (d.0 h))), (d.0, d.1 + 1));
  rename = move;
  remove = λ d p. put d p none;
}

abbrev pub on_disk : Disk → List ℕ → Option (List ℕ)
on_disk d p = d.0 p

abbrev pub own_path : List ℕ → List ℕ
own_path h = h

pub disk-IsLawful : IsLawful disk on_disk own_path
disk-IsLawful = record {
  open_write_path = λ d p h e. ground (arith, e);
  open_write_rest = λ d p q h. put_rest d p q (some []) h;
  write_rest = λ d h xs q n. put_rest d h q (some (content (d.0 h) ++ xs)) n;
  flush_rest = λ d h q n. refl;
  close_rest = λ d h q n. refl;
  remove_rest = λ d p q h. put_rest d p q none h;
  written = λ d p xs h e all flushed closed. written_lem d p h xs (ground (arith, e));
  renamed = λ d p q e. move_done d p q e;
  not_renamed = λ d p q e. move_failed d p q e;
  reads = λ d p xs h n e there. rw (read_start d p h xs e there) (take_prefix n xs);
  ends = λ d p xs h n e there all.
      ap front
        (read_lem d p h xs n e there ∙ take_all n xs (rw (read_start d p h xs e there) at all));
}
