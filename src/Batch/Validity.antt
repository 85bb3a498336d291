-- ===== src/Batch/Validity.antt =====
-- What `num8lora_validate_update_numbers` tests: numbers in range, none twice in a list, and none in
-- both lists.
use num8_lup.Base.{ℕ, ◌≤◌, ◌≡◌, ◌≢◌, ◌↔◌, refl, arith, false, none, some, List, [], ◌∷◌, take, All}
use num8_lup.Batch.Types.{UpdateHeader, Numbers, max_value}
use num8_lup.Batch.Update.{
  array, missing, valid_number, occurs, check_batch, overlap, validate_update_numbers,
}

abbrev pub Apart : ℕ → List ℕ → Type 0
Apart x ys = All (λ y. x ≢ y) ys

abbrev pub Distinct : List ℕ → Type 0
Distinct [] = Unit {0}
Distinct (x ∷ xs) = Apart x xs × Distinct xs

abbrev pub IsBatch : List ℕ → Type 0
IsBatch xs = All (λ x. x ≤ max_value) xs × Distinct xs

abbrev pub Disjoint : List ℕ → List ℕ → Type 0
Disjoint xs ys = All (λ x. Apart x ys) xs

pub occurs_iff : (x : ℕ) (ys : List ℕ) → (occurs x ys ≡ false) ↔ Apart x ys
unfolding occurs
occurs_iff x [] = ((λ e. tt), (λ h. refl))
occurs_iff x (y ∷ ys) = ground (arith, occurs_iff x ys)

check_batch_iff : (xs : List ℕ) → (check_batch xs ≡ none) ↔ IsBatch xs
unfolding check_batch valid_number
check_batch_iff [] = ((λ e. (tt, tt)), (λ h. refl))
check_batch_iff (x ∷ xs) = ground (arith, check_batch_iff xs, occurs_iff x xs)

overlap_iff : (xs ys : List ℕ) → (overlap xs ys ≡ false) ↔ Disjoint xs ys
unfolding overlap
overlap_iff [] ys = ((λ e. tt), (λ h. refl))
overlap_iff (x ∷ xs) ys = ground (arith, overlap_iff xs ys, occurs_iff x ys)

module _ (hdr : UpdateHeader) (removes adds : Numbers) where
  abbrev pub AreValid : Type 0
  AreValid =
      let xs = take hdr.remove_count (array removes) in
      let ys = take hdr.add_count (array adds) in
      (missing hdr.remove_count removes ≡ false)
      × (missing hdr.add_count adds ≡ false)
      × IsBatch xs
      × IsBatch ys
      × Disjoint xs ys

  -- `validate_update_numbers` accepts if and only if no array that has numbers is missing, the
  -- numbers are in range, none occurs twice in a list, and none is in both.
  pub validate_update_numbers_iff : (validate_update_numbers hdr removes adds ≡ none) ↔ AreValid
  unfolding validate_update_numbers
  validate_update_numbers_iff =
      let xs = take hdr.remove_count (array removes) in
      let ys = take hdr.add_count (array adds) in
      ground (arith, check_batch_iff xs, check_batch_iff ys, overlap_iff xs ys)

-- An error code is never the one for no error.
check_batch_nonzero : (xs : List ℕ) → check_batch xs ≢ some 0
unfolding check_batch
check_batch_nonzero [] e = ground arith
check_batch_nonzero (x ∷ xs) e = ground (arith, check_batch_nonzero xs)

pub validate_update_numbers_nonzero :
    (hdr : UpdateHeader) (removes adds : Numbers)
    → validate_update_numbers hdr removes adds ≢ some 0
unfolding validate_update_numbers
validate_update_numbers_nonzero hdr removes adds e = ground (
  arith,
  check_batch_nonzero (take hdr.remove_count (array removes)),
  check_batch_nonzero (take hdr.add_count (array adds)),
)
