-- ===== src/Runtime/Steps.antt =====
-- The sender of src/num8lora_runtime.c as a state machine: its calls as events, and its states.
use num8_lup.Base.{ℕ, ◌≤◌, ◌<◌, ◌≡◌, ◌≢◌, ◌⊎◌, arith, some, List, [], ◌∷◌, if◌then◌else◌, ◌==◌}
use num8_lup.Batch.{
  Numbers, UpdateHeader, classify_frame, decode_update_request, msg_update_request, err_internal,
  err_update_id_unknown, err_dataset_version_mismatch, compute_update_payload_crc16,
}
use num8_lup.Batch.Validity.{AreValid}
use num8_lup.Runtime.Types.{SenderState, idle, wait_request, wait_ack, SenderCtx}
use num8_lup.Runtime.Sender.{
  sender_set_update, sender_build_beacon, refuse_request, answer_request,
  sender_handle_update_request, sender_handle_ack_or_nack, sender_on_ack_timeout,
}

-- The calls that a program makes on a sender, each with the buffer's capacity or the frame it got.
pub data Event : Type 0 where
  set_update : ℕ → UpdateHeader → Numbers → Numbers → Event
  build_beacon : ℕ → Event
  update_request : List ℕ → ℕ → Event
  ack_or_nack : List ℕ → Event
  ack_timeout : ℕ → Event

unfoldable pub step : SenderCtx → Event → SenderCtx
step ctx (set_update target hdr removes adds) = (sender_set_update ctx target hdr removes adds).2
step ctx (build_beacon size) = (sender_build_beacon ctx size).1
step ctx (update_request b size) = (sender_handle_update_request ctx b size).1
step ctx (ack_or_nack b) = (sender_handle_ack_or_nack ctx b).3
step ctx (ack_timeout size) = (sender_on_ack_timeout ctx size).1

unfoldable pub run : SenderCtx → List Event → SenderCtx
run ctx [] = ctx
run ctx (e ∷ es) = run (step ctx e) es

-- The diagram of the states.
infix 40 ◌⟶◌
pub data ◌⟶◌ : SenderState → SenderState → Type 0 where
  stay : {s : SenderState} → s ⟶ s
  offer : idle ⟶ wait_request
  send : wait_request ⟶ wait_ack
  refuse : wait_request ⟶ idle
  close : wait_ack ⟶ idle

-- An update that may go on air, with the CRC that its beacon announces.
pub record IsOffer (hdr : UpdateHeader) (removes adds : Numbers) (payload_crc : ℕ) : Type 0 where
  pub forward : hdr.dataset_version_from < hdr.dataset_version_to
  pub reserved : hdr.reserved0 ≡ 0
  pub numbers : AreValid hdr removes adds
  pub crc : compute_update_payload_crc16 hdr removes adds ≡ some payload_crc

pub record IsInv (ctx : SenderCtx) : Type 0 where
  pub small : ctx.max_retries < 256
  pub bounded : ctx.retries ≤ ctx.max_retries
  pub offered :
      ctx.state ≢ idle
      → IsOffer ctx.update_hdr ctx.remove_numbers ctx.add_numbers ctx.update_payload_crc16

ruleset edges = (stay, offer, send, refuse, close)

module _ (ctx : SenderCtx) where
  set_update-⟶ :
      (target : ℕ) (hdr : UpdateHeader) (removes adds : Numbers)
      → ctx.state ⟶ (sender_set_update ctx target hdr removes adds).2.state
  unfolding sender_set_update
  set_update-⟶ target hdr removes adds = grind (arith, edges)

  build_beacon-state : (size : ℕ) → (sender_build_beacon ctx size).1.state ≡ ctx.state
  unfolding sender_build_beacon
  build_beacon-state size = ground arith

  refuse_request-⟶ :
      (receiver id error size : ℕ)
      → ctx.state ≢ idle
      → ctx.state ⟶ (refuse_request ctx receiver id error size).1.state
  unfolding refuse_request
  refuse_request-⟶ receiver id error size h = grind (arith, edges)

  answer_request-⟶ :
      (receiver size : ℕ)
      → ctx.state ≢ idle
      → ctx.state ⟶ (answer_request ctx receiver size).1.state
  unfolding answer_request
  answer_request-⟶ receiver size h = grind (arith, edges)

  -- A request changes the context by `refuse_request` or `answer_request`, if at all.
  pub request_ind {ℓ} :
      (P : SenderCtx → Type ℓ) (b : List ℕ) (size : ℕ)
      → P ctx
      → (ctx.state ≢ idle
          → (receiver id error : ℕ) → P (refuse_request ctx receiver id error size).1)
      → (ctx.state ≢ idle → (receiver : ℕ) → P (answer_request ctx receiver size).1)
      → P (sender_handle_update_request ctx b size).1
  unfolding sender_handle_update_request
  request_ind P b size same refused answered =
      let c = classify_frame b ctx.sender_id msg_update_request in
      let d = decode_update_request b c.1 in
      let refuse_with : (id error : ℕ)
          → ctx.state ≢ idle
          → P (refuse_request ctx d.1.sender_id id error size).1 =
        λ id error h. refused h d.1.sender_id id error in
      let answer_with : ctx.state ≢ idle → P (answer_request ctx d.1.sender_id size).1 =
        λ h. answered h d.1.sender_id in
      ground (
        arith,
        refuse_with ctx.update_hdr.update_id (if c.2 == 0 then err_internal else c.2),
        refuse_with d.2.requested_update_id err_update_id_unknown,
        refuse_with d.2.requested_update_id err_dataset_version_mismatch,
        answer_with,
      )

  request-⟶ :
      (b : List ℕ) (size : ℕ) → ctx.state ⟶ (sender_handle_update_request ctx b size).1.state
  request-⟶ b size =
      request_ind (λ c. ctx.state ⟶ c.state) b size stay
        (λ h receiver id error. refuse_request-⟶ receiver id error size h)
        (λ h receiver. answer_request-⟶ receiver size h)

  -- A frame changes the context only while it waits for one, and then the state is `idle`.
  pub ack_or_nack_cases :
      (b : List ℕ)
      → let c = (sender_handle_ack_or_nack ctx b).3 in
        (c ≡ ctx)
        ⊎ ((ctx.state ≡ wait_ack)
            × ((c ≡ record ctx { state = idle; retries = 0 })
                ⊎ (c ≡ record ctx { last_nack_error = c.last_nack_error; state = idle })))
  unfolding sender_handle_ack_or_nack
  ack_or_nack_cases b = ground arith

  ack_or_nack-⟶ : (b : List ℕ) → ctx.state ⟶ (sender_handle_ack_or_nack ctx b).3.state
  ack_or_nack-⟶ b = grind (arith, edges, ack_or_nack_cases b)

  timeout-⟶ : (size : ℕ) → ctx.state ⟶ (sender_on_ack_timeout ctx size).1.state
  unfolding sender_on_ack_timeout
  timeout-⟶ size = grind (arith, edges)

-- Every call on a batch sender keeps its state or takes it from idle to waiting for a request,
-- from there to waiting for an ACK or back to idle, or from waiting for an ACK to idle.
pub step-⟶ : (ctx : SenderCtx) (e : Event) → ctx.state ⟶ (step ctx e).state
unfolding step
step-⟶ ctx (set_update target hdr removes adds) = set_update-⟶ ctx target hdr removes adds
step-⟶ ctx (build_beacon size) = rw (build_beacon-state ctx size) stay
step-⟶ ctx (update_request b size) = request-⟶ ctx b size
step-⟶ ctx (ack_or_nack b) = ack_or_nack-⟶ ctx b
step-⟶ ctx (ack_timeout size) = timeout-⟶ ctx size
