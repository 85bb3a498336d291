-- ===== src/Receiver/History.antt =====
-- Any list of frames: the callback sees the operations of the sender's log, each once, in order.
use num8_lup.Base.{
  ℕ, zero, suc, ◌+◌, ◌≡◌, ◌⊎◌, inl, inr, refl, sym, ◌∙◌, ap, arith, Bool, true, false, some, List,
  [], ◌∷◌, ◌++◌, if◌then◌else◌, All,
}
use num8_lup.Op.{CommonHeader, DataPayload, clear_common, decode_data}
use num8_lup.Receiver.Order.{
  Effect, untouched, failed, applied, handle_data-Effect, handle_data-same,
}
use mathlib.Core.Path.{ap₂}
use mathlib.Core.List.{append-nil, append_assoc}
use num8_lup.Receiver.Defs.{Receiver, ApplyFn, try_apply, handle_data}

-- The user's state is the list of the calls that the callback accepted, and `accepts` says which
-- it accepts.
abbrev pub History : Type 0
History = List (ℕ × ℕ)

unfoldable pub note : (History → ℕ → ℕ → Bool) → ApplyFn History
note accepts user op_type value =
    if accepts user op_type value then (true, user ++ ((op_type, value) ∷ [])) else (false, user)

-- A receiver that gets a list of frames, each with the capacity of the buffer for the answer.
unfoldable pub deliver :
    (History → ℕ → ℕ → Bool) → Receiver → History → List (List ℕ × ℕ) → Receiver × History
deliver accepts r user [] = (r, user)
deliver accepts r user ((in_buf, out_cap) ∷ frames) =
    let (answer, r', user') = handle_data (some (note accepts)) user r in_buf out_cap in
    deliver accepts r' user' frames

module _ (log : ℕ → ℕ × ℕ) where
  -- A frame that decodes as one for this receiver and stream holds the operation of that log.
  abbrev pub Genuine : ℕ → ℕ → List ℕ → Type 0
  Genuine receiver_id stream_id in_buf =
      let (decoded, hdr, d) = decode_data in_buf clear_common in
      (decoded ≡ true)
      → (hdr.receiver_id ≡ receiver_id)
      → (d.stream_id ≡ stream_id)
      → (d.op_type, d.value) ≡ log d.op_id

  -- The `n` operations behind number `last`.
  abbrev pub following : ℕ → ℕ → History
  following last zero = []
  following last (suc n) = log (last + 1) ∷ following (last + 1) n

  abbrev pub AllGenuine : ℕ → ℕ → List (List ℕ × ℕ) → Type 0
  AllGenuine receiver_id stream_id frames = All (λ f. Genuine receiver_id stream_id f.0) frames

module _ (accepts : History → ℕ → ℕ → Bool) (log : ℕ → ℕ × ℕ) where
  note_refused :
      (user : History) (op_type value : ℕ) {user' : History}
      → note accepts user op_type value ≡ (false, user')
      → user' ≡ user
  unfolding note
  note_refused user op_type value e = ground arith

  note_taken :
      (user : History) (op_type value : ℕ) {user' : History}
      → note accepts user op_type value ≡ (true, user')
      → user' ≡ user ++ ((op_type, value) ∷ [])
  unfolding note
  note_taken user op_type value e = ground arith

  -- One frame adds nothing or the next operation.
  handle_data-following :
      (r : Receiver) (user : History) (in_buf : List ℕ) (out_cap : ℕ)
      → Genuine log r.receiver_id r.stream_id in_buf
      → let (answer, r', user') = handle_data (some (note accepts)) user r in_buf out_cap in
        ((r'.last_applied_op_id ≡ r.last_applied_op_id) × (user' ≡ user))
        ⊎ ((r'.last_applied_op_id ≡ r.last_applied_op_id + 1)
            × (user' ≡ user ++ (log (r.last_applied_op_id + 1) ∷ [])))
  unfolding try_apply note
  handle_data-following r user in_buf out_cap genuine =
      let (decoded, hdr, d) = decode_data in_buf clear_common in
      go decoded hdr d genuine (handle_data-Effect (some (note accepts)) user r in_buf out_cap)
    where
      go :
          (decoded : Bool) (hdr : CommonHeader) (d : DataPayload) {last' : ℕ} {user' : History}
          → (decoded ≡ true
              → hdr.receiver_id ≡ r.receiver_id
              → d.stream_id ≡ r.stream_id
              → (d.op_type, d.value) ≡ log d.op_id)
          → Effect (some (note accepts)) user r decoded hdr d last' user'
          → ((last' ≡ r.last_applied_op_id) × (user' ≡ user))
            ⊎ ((last' ≡ r.last_applied_op_id + 1)
                × (user' ≡ user ++ (log (r.last_applied_op_id + 1) ∷ [])))
      go decoded hdr d g untouched = inl (refl, refl)
      go decoded hdr d g (failed next e) = inl (refl, note_refused user _ _ e)
      go decoded hdr d g (applied next e) =
          let said = g next.0 next.1 next.2 in
          let id = next.3 in
          inr (id, note_taken user _ _ e ∙ ap (λ x. user ++ (x ∷ [])) (said ∙ ap log id))

  -- A receiver gets any list of frames, with any buffer sizes and any answers of the callback. If
  -- the frames that decode as data frames for this receiver and stream hold operations of one log,
  -- then the calls that the callback accepted are those of the operations behind the last applied
  -- number, in order, each once, and the counted number has grown by as many.
  pub deliver-following :
      (r : Receiver) (user : History) (frames : List (List ℕ × ℕ))
      → AllGenuine log r.receiver_id r.stream_id frames
      → let (r', user') = deliver accepts r user frames in
        (n : ℕ) × (r'.last_applied_op_id ≡ r.last_applied_op_id + n)
        × (user' ≡ user ++ following log r.last_applied_op_id n)
  unfolding deliver
  deliver-following r user [] genuine = (0, omega arith, sym (append-nil user))
  deliver-following r user ((in_buf, out_cap) ∷ frames) genuine =
      let (answer, r1, user1) = handle_data (some (note accepts)) user r in_buf out_cap in
      let same = handle_data-same (some (note accepts)) user r in_buf out_cap in
      let step = handle_data-following r user in_buf out_cap genuine.0 in
      let (n, last, list) = deliver-following r1 user1 frames (rw (same.0, same.1) genuine.1) in
      elim step [
        | inl (stays, kept) ↦
            (n, omega arith, list ∙ ap₂ (λ u l. u ++ following log l n) kept stays)
        | inr (moves, grows) ↦ (
          suc n,
          omega arith,
          list
              ∙ ap₂ (λ u l. u ++ following log l n) grows moves
              ∙ append_assoc user (log (r.last_applied_op_id + 1) ∷ []) _,
        )
      ]
