-- ===== src/Bridge/Receive.antt =====
-- What a received batch update does to the receiver and to its engine.
use num8_lup.Base.{
  ℕ, ◌≡◌, ◌≢◌, ◌⊎◌, inl, inr, sym, refl, ap, subst, ◌∙◌, arith, Bool, true, false, Option, none,
  some, List, take, replicate,
}
use num8_lup.Batch.{Numbers, UpdateHeader, array, decode_common_header}
use num8_lup.Runtime.{
  ReceiverCtx, scan, ValidatedUpdate, receiver_validate_update_data, receiver_encode_ack,
  receiver_encode_nack,
}
use num8_lup.Bridge.Engine.{Engine, IsLawful}
use num8_lup.Bridge.Defs.{
  apply_update_to_num8, applied_ctx, respond, apply_received, receiver_apply_update_data_to_num8,
}
use num8_lup.Bridge.Sets.{member, apply_update_to_num8_lem}

-- A response does not change which update the receiver holds as the last one.
abbrev pub Keeps : ReceiverCtx → ReceiverCtx → Type 0
Keeps ctx ctx' =
    (ctx'.local_dataset_version ≡ ctx.local_dataset_version)
    × (ctx'.last_applied_update_id ≡ ctx.last_applied_update_id)
    × (ctx'.state ≡ ctx.state)

nack-Keeps :
    (ctx : ReceiverCtx) (sender_id id error detail size : ℕ)
    → Keeps ctx (receiver_encode_nack ctx sender_id id error detail size).1
unfolding receiver_encode_nack
nack-Keeps ctx sender_id id error detail size = ground arith

ack-Keeps :
    (ctx : ReceiverCtx) (sender_id id size : ℕ)
    → Keeps ctx (receiver_encode_ack ctx sender_id id size).1
unfolding receiver_encode_ack
ack-Keeps ctx sender_id id size = ground arith

-- What `num8lora_receiver_validate_update_data` is called with.
abbrev pub validated : ReceiverCtx → List ℕ → ValidatedUpdate
validated ctx b =
    receiver_validate_update_data ctx b (some (replicate 255 0)) (some (replicate 255 0))

module _ (engine : Engine) where
  respond_ctx :
      (response : Option (List ℕ) × ReceiverCtx) (error : ℕ) (e : engine.State)
      → ((respond engine response error e).2 ≡ response.1)
        × ((respond engine response error e).3 ≡ e)
  unfolding respond
  respond_ctx (none, ctx) error e = (refl, refl)
  respond_ctx (some f, ctx) error e = (refl, refl)

  module _ (ctx : ReceiverCtx) (e : engine.State) (sender_id : ℕ) (up : UpdateHeader)
      (removes adds : Numbers) (size : ℕ) where
    -- The update is on the engine and in the context, or the context is as it was.
    apply_received_cases :
        let a =
          apply_update_to_num8 engine e ctx.local_dataset_version ctx.last_applied_update_id up
            removes adds in
        let r = apply_received engine ctx e sender_id up removes adds size in
        Keeps ctx r.2
        ⊎ ((a.status ≡ true)
            × (r.0 ≢ none)
            × (r.1 ≡ 0)
            × (r.2.local_dataset_version ≡ a.new_dataset_version)
            × (r.2.last_applied_update_id ≡ a.new_last_applied_update_id)
            × (r.2.state ≡ scan)
            × (r.3 ≡ a.engine))
    unfolding apply_received applied_ctx
    apply_received_cases =
        let a =
          apply_update_to_num8 engine e ctx.local_dataset_version ctx.last_applied_update_id up
            removes adds in
        let n = receiver_encode_nack ctx sender_id up.update_id a.error 0 size in
        ground (
          arith,
          respond_ctx n a.error a.engine,
          nack-Keeps ctx sender_id up.update_id a.error 0 size,
        )

  module _ (holds : engine.State → ℕ → Bool) (lawful : IsLawful engine holds) (ctx : ReceiverCtx)
      (e : engine.State) (b : List ℕ) (size : ℕ) where
    -- The update that was received is on the engine and in the context, and an ACK is ready.
    abbrev pub IsApplied : Option (List ℕ) × ℕ × ReceiverCtx × engine.State → Type 0
    IsApplied r =
        let v = validated ctx b in
        (v.status ≡ true)
        × (v.header.update_id ≢ ctx.last_applied_update_id)
        × (r.0 ≢ none)
        × (r.1 ≡ 0)
        × (v.header.dataset_version_from ≡ ctx.local_dataset_version)
        × (r.2.local_dataset_version ≡ v.header.dataset_version_to)
        × (r.2.last_applied_update_id ≡ v.header.update_id)
        × (r.2.state ≡ scan)
        × ((u : ℕ)
            → holds r.3 u
              ≡ member (holds e u) (take v.header.remove_count (array v.remove_numbers))
                  (take v.header.add_count (array v.add_numbers)) u)

    abbrev pub Outcome : Option (List ℕ) × ℕ × ReceiverCtx × engine.State → Type 0
    Outcome r = Keeps ctx r.2 ⊎ IsApplied r

    reached :
        let v = validated ctx b in
        let h = (decode_common_header b).1 in
        let r = receiver_apply_update_data_to_num8 engine ctx e b size in
        Keeps ctx r.2
        ⊎ ((v.status ≡ true)
            × (v.header.update_id ≢ ctx.last_applied_update_id)
            × (r
                ≡ apply_received engine ctx e h.sender_id v.header v.remove_numbers v.add_numbers
                    size))
    unfolding receiver_apply_update_data_to_num8
    reached =
        let v = validated ctx b in
        let h = (decode_common_header b).1 in
        let n = receiver_encode_nack ctx h.sender_id ctx.pending_update_id v.error 0 size in
        let k = receiver_encode_ack ctx h.sender_id v.header.update_id size in
        ground (
          arith,
          respond_ctx n v.error e,
          respond_ctx k 0 e,
          nack-Keeps ctx h.sender_id ctx.pending_update_id v.error 0 size,
          ack-Keeps ctx h.sender_id v.header.update_id size,
        )

    apply_received-Outcome :
        let v = validated ctx b in
        let h = (decode_common_header b).1 in
        v.status ≡ true
        → v.header.update_id ≢ ctx.last_applied_update_id
        → Outcome
            (apply_received engine ctx e h.sender_id v.header v.remove_numbers v.add_numbers size)
    apply_received-Outcome valid fresh =
        let v = validated ctx b in
        let h = (decode_common_header b).1 in
        elim (apply_received_cases ctx e h.sender_id v.header v.remove_numbers v.add_numbers size) [
          | inl kept ↦ inl kept
          | inr c ↦
              let a =
                apply_update_to_num8_lem engine holds lawful e ctx.local_dataset_version
                  ctx.last_applied_update_id v.header v.remove_numbers v.add_numbers c.0 fresh in
              inr (
                valid,
                fresh,
                c.1,
                c.2,
                a.0,
                c.3 ∙ a.2,
                c.4 ∙ a.3,
                c.5,
                λ u. ap (λ e'. holds e' u) c.6 ∙ a.4 u,
              )
        ]

    -- Whatever a buffer holds, `receiver_apply_update_data_to_num8`, on an engine whose calls
    -- change its set as documented, leaves the receiver's version, last update and state as they
    -- were, or the update in the buffer was accepted and is not the last one applied, a response
    -- is written with no error, the receiver held the version the update starts from and now holds
    -- the one it leads to and its id, and the engine holds the numbers it had less the removed
    -- ones and the added ones.
    pub receiver_apply_update_data_to_num8-Outcome :
        Outcome (receiver_apply_update_data_to_num8 engine ctx e b size)
    receiver_apply_update_data_to_num8-Outcome = elim reached [
      | inl kept ↦ inl kept
      | inr c ↦ subst Outcome (sym c.2) (apply_received-Outcome c.0 c.1)
    ]

  -- If the update in the buffer is refused, or is the last one applied sent again, then
  -- `receiver_apply_update_data_to_num8` does not touch the engine and keeps the receiver's
  -- version, last update and state.
  pub receiver_apply_update_data_to_num8_again :
      (ctx : ReceiverCtx) (e : engine.State) (b : List ℕ) (size : ℕ)
      → let v = validated ctx b in
        let r = receiver_apply_update_data_to_num8 engine ctx e b size in
        (v.status ≡ false) ⊎ (v.header.update_id ≡ ctx.last_applied_update_id)
        → (r.3 ≡ e) × Keeps ctx r.2
  unfolding receiver_apply_update_data_to_num8
  receiver_apply_update_data_to_num8_again ctx e b size c =
      let v = validated ctx b in
      let h = (decode_common_header b).1 in
      let n = receiver_encode_nack ctx h.sender_id ctx.pending_update_id v.error 0 size in
      let k = receiver_encode_ack ctx h.sender_id v.header.update_id size in
      ground (
        arith,
        c,
        respond_ctx n v.error e,
        respond_ctx k 0 e,
        nack-Keeps ctx h.sender_id ctx.pending_update_id v.error 0 size,
        ack-Keeps ctx h.sender_id v.header.update_id size,
      )
