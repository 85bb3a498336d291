-- ===== src/Bridge/Sets.antt =====
-- The set of numbers that the engine holds after an update.
use num8_lup.Base.{
  ℕ, ◌≡◌, ◌≢◌, ◌⊎◌, inl, inr, refl, ap, ◌∙◌, arith, Bool, true, false, not, ◌||◌, ◌&&◌, none, List,
  [], ◌∷◌, take, Bool-cases,
}
use num8_lup.Batch.{Numbers, UpdateHeader, array, occurs, validate_update_numbers}
use num8_lup.Batch.Validity.{AreValid, validate_update_numbers_iff}
use num8_lup.Bridge.Engine.{Num8Status, added, already_exists, removed, not_found, Engine, IsLawful}
use num8_lup.Bridge.Defs.{
  is_removed, is_added, remove_all, add_all, apply_numbers, apply_update_to_num8,
}

is_removed_cases : (st : Num8Status) → is_removed st ≡ true → (st ≡ removed) ⊎ (st ≡ not_found)
is_removed_cases st e = ground arith

is_added_cases : (st : Num8Status) → is_added st ≡ true → (st ≡ added) ⊎ (st ≡ already_exists)
is_added_cases st e = ground arith

-- The numbers that were there, less the ones removed, and the ones added.
abbrev pub member : Bool → List ℕ → List ℕ → ℕ → Bool
member before removes adds u = occurs u adds || (not (occurs u removes) && before)

module _ (engine : Engine) (holds : engine.State → ℕ → Bool) (lawful : IsLawful engine holds) where
  remove_all-rest :
      (xs : List ℕ) (e : engine.State) (u : ℕ)
      → occurs u xs ≡ false
      → holds (remove_all engine e xs).1 u ≡ holds e u
  unfolding remove_all occurs
  remove_all-rest [] e u h = refl
  remove_all-rest (x ∷ xs) e u h =
      let e' = (engine.remove e x).0 in
      ground (arith, remove_all-rest xs e' u, lawful.remove_rest e x u)

  add_all-rest :
      (xs : List ℕ) (e : engine.State) (u : ℕ)
      → occurs u xs ≡ false
      → holds (add_all engine e xs).1 u ≡ holds e u
  unfolding add_all occurs
  add_all-rest [] e u h = refl
  add_all-rest (x ∷ xs) e u h =
      let e' = (engine.add e x).0 in ground (arith, add_all-rest xs e' u, lawful.add_rest e x u)

  remove_all_lem :
      (xs : List ℕ) (e : engine.State) (u : ℕ)
      → (remove_all engine e xs).0 ≡ true
      → occurs u xs ≡ true
      → holds (remove_all engine e xs).1 u ≡ false
  unfolding remove_all occurs
  remove_all_lem [] e u done h = absurd (ground (arith, h))
  remove_all_lem (x ∷ xs) e u done h =
      let r = engine.remove e x in
      elim (Bool-cases (occurs u xs)) [
        | inl again ↦ ground (arith, remove_all_lem xs r.0 u, again)
        | inr last ↦ ground (
          arith,
          h,
          last,
          remove_all-rest xs r.0 u last,
          lawful.remove_same e x,
          is_removed_cases r.1,
        )
      ]

  add_all_lem :
      (xs : List ℕ) (e : engine.State) (u : ℕ)
      → (add_all engine e xs).0 ≡ true
      → occurs u xs ≡ true
      → holds (add_all engine e xs).1 u ≡ true
  unfolding add_all occurs
  add_all_lem [] e u done h = absurd (ground (arith, h))
  add_all_lem (x ∷ xs) e u done h =
      let r = engine.add e x in
      elim (Bool-cases (occurs u xs)) [
        | inl again ↦ ground (arith, add_all_lem xs r.0 u, again)
        | inr last ↦
            ground
              (arith, h, last, add_all-rest xs r.0 u last, lawful.add_same e x, is_added_cases r.1)
      ]

  module _ (e : engine.State) (removes adds : List ℕ) (u : ℕ) where
    pub apply_numbers_lem :
        (apply_numbers engine e removes adds).0 ≡ true
        → holds (apply_numbers engine e removes adds).1 u ≡ member (holds e u) removes adds u
    unfolding apply_numbers
    apply_numbers_lem done =
        let e1 = (remove_all engine e removes).1 in
        let e2 = (add_all engine e1 adds).1 in
        ground (
          arith,
          done,
          lawful.flush_rest e2 u,
          add_all_lem adds e1 u,
          add_all-rest adds e1 u,
          remove_all_lem removes e u,
          remove_all-rest removes e u,
        )

    apply_numbers-rest :
        occurs u removes ≡ false
        → occurs u adds ≡ false
        → holds (apply_numbers engine e removes adds).1 u ≡ holds e u
    unfolding apply_numbers
    apply_numbers-rest r a =
        let e1 = (remove_all engine e removes).1 in
        let e2 = (add_all engine e1 adds).1 in
        ground
          (arith, lawful.flush_rest e2 u, add_all-rest adds e1 u a, remove_all-rest removes e u r)

  module _ (e : engine.State) (local last : ℕ) (hdr : UpdateHeader) (removes adds : Numbers) where
    applied_inv :
        let a = apply_update_to_num8 engine e local last hdr removes adds in
        let n =
          apply_numbers engine e
            (take hdr.remove_count (array removes))
            (take hdr.add_count (array adds)) in
        a.status ≡ true
        → hdr.update_id ≢ last
        → (hdr.dataset_version_from ≡ local)
          × (validate_update_numbers hdr removes adds ≡ none)
          × (a.new_dataset_version ≡ hdr.dataset_version_to)
          × (a.new_last_applied_update_id ≡ hdr.update_id)
          × (n.0 ≡ true)
          × (a.engine ≡ n.1)
    unfolding apply_update_to_num8
    applied_inv done fresh = ground (arith, done, fresh)

    -- A new update that is applied: its numbers were valid, and the set is the one it asks for.
    pub apply_update_to_num8_lem :
        let a = apply_update_to_num8 engine e local last hdr removes adds in
        a.status ≡ true
        → hdr.update_id ≢ last
        → (hdr.dataset_version_from ≡ local)
          × AreValid hdr removes adds
          × (a.new_dataset_version ≡ hdr.dataset_version_to)
          × (a.new_last_applied_update_id ≡ hdr.update_id)
          × ((u : ℕ)
              → holds a.engine u
                ≡ member
                    (holds e u)
                    (take hdr.remove_count (array removes))
                    (take hdr.add_count (array adds))
                    u)
    apply_update_to_num8_lem done fresh =
        let i = applied_inv done fresh in
        (
          i.0,
          (validate_update_numbers_iff hdr removes adds).0 i.1,
          i.2,
          i.3,
          λ u. ap (λ e'. holds e' u) i.5 ∙ apply_numbers_lem e _ _ u i.4,
        )

    -- Whatever the outcome, the numbers that the update does not name stay as they were.
    pub apply_update_to_num8-rest :
        (u : ℕ)
        → occurs u (take hdr.remove_count (array removes)) ≡ false
        → occurs u (take hdr.add_count (array adds)) ≡ false
        → holds (apply_update_to_num8 engine e local last hdr removes adds).engine u ≡ holds e u
    unfolding apply_update_to_num8
    apply_update_to_num8-rest u r a = ground (
      arith,
      apply_numbers-rest e (take hdr.remove_count (array removes)) (take hdr.add_count (array adds))
          u r a,
    )

  -- If an update is applied to an engine whose calls change its set as documented, with any
  -- outcome of the first attempt, and a second attempt with the same update succeeds and finds it
  -- not applied yet, then the set is the one of the start less the removed numbers and with the
  -- added ones.
  pub apply_update_to_num8-apply_update_to_num8 :
      (e : engine.State) (local last local' last' : ℕ) (hdr : UpdateHeader) (removes adds : Numbers)
      → let first = apply_update_to_num8 engine e local last hdr removes adds in
        let second = apply_update_to_num8 engine first.engine local' last' hdr removes adds in
        second.status ≡ true
        → hdr.update_id ≢ last'
        → (u : ℕ)
        → holds second.engine u
          ≡ member
              (holds e u)
              (take hdr.remove_count (array removes))
              (take hdr.add_count (array adds))
              u
  apply_update_to_num8-apply_update_to_num8 e local last local' last' hdr removes adds done fresh
        u =
      let first = apply_update_to_num8 engine e local last hdr removes adds in
      ground (
        arith,
        (apply_update_to_num8_lem first.engine local' last' hdr removes adds done fresh).4 u,
        apply_update_to_num8-rest e local last hdr removes adds u,
      )
