-- ===== src/Runtime/Invariant.antt =====
-- The invariant of the sender of src/num8lora_runtime.c.
use num8_lup.Base.{ℕ, ◌<◌, ◌≢◌, refl, arith, none, List, [], ◌∷◌}
use num8_lup.Batch.{Numbers, UpdateHeader, compute_update_payload_crc16}
use num8_lup.Batch.Validity.{AreValid, validate_update_numbers_iff}
use num8_lup.Runtime.Types.{SenderCtx}
use num8_lup.Runtime.Sender.{
  sender_init, sender_set_update, sender_build_beacon, refuse_request, answer_request,
  sender_handle_update_request, sender_handle_ack_or_nack, sender_on_ack_timeout,
}
use num8_lup.Runtime.Steps.{
  Event, set_update, build_beacon, update_request, ack_or_nack, ack_timeout, step, run, IsInv,
  request_ind, ack_or_nack_cases,
}

compute_total :
    (hdr : UpdateHeader) (removes adds : Numbers)
    → AreValid hdr removes adds
    → compute_update_payload_crc16 hdr removes adds ≢ none
unfolding compute_update_payload_crc16
compute_total hdr removes adds v = ground (arith, v.0, v.1)

module _ (ctx : SenderCtx) (inv : IsInv ctx) where
  set_update-Inv :
      (target : ℕ) (hdr : UpdateHeader) (removes adds : Numbers)
      → IsInv (sender_set_update ctx target hdr removes adds).2
  unfolding sender_set_update
  set_update-Inv target hdr removes adds =
      grind
        (arith, inv, validate_update_numbers_iff hdr removes adds, compute_total hdr removes adds)

  build_beacon-Inv : (size : ℕ) → IsInv (sender_build_beacon ctx size).1
  unfolding sender_build_beacon
  build_beacon-Inv size = grind (arith, inv)

  request-Inv : (b : List ℕ) (size : ℕ) → IsInv (sender_handle_update_request ctx b size).1
  unfolding refuse_request answer_request
  request-Inv b size =
      request_ind ctx IsInv b size inv (λ h receiver id error. grind (arith, inv))
        (λ h receiver. grind (arith, inv))

  ack_or_nack-Inv : (b : List ℕ) → IsInv (sender_handle_ack_or_nack ctx b).3
  ack_or_nack-Inv b = grind (arith, inv, ack_or_nack_cases ctx b)

  timeout-Inv : (size : ℕ) → IsInv (sender_on_ack_timeout ctx size).1
  unfolding sender_on_ack_timeout
  timeout-Inv size = grind (arith, inv)

pub step-Inv : (ctx : SenderCtx) (e : Event) → IsInv ctx → IsInv (step ctx e)
unfolding step
step-Inv ctx (set_update target hdr removes adds) inv =
    set_update-Inv ctx inv target hdr removes adds
step-Inv ctx (build_beacon size) inv = build_beacon-Inv ctx inv size
step-Inv ctx (update_request b size) inv = request-Inv ctx inv b size
step-Inv ctx (ack_or_nack b) inv = ack_or_nack-Inv ctx inv b
step-Inv ctx (ack_timeout size) inv = timeout-Inv ctx inv size

run_keeps : (es : List Event) (ctx : SenderCtx) → IsInv ctx → IsInv (run ctx es)
unfolding run
run_keeps [] ctx inv = inv
run_keeps (e ∷ es) ctx inv = run_keeps es (step ctx e) (step-Inv ctx e inv)

-- In every order of calls on a batch sender that was started with an 8-bit retry limit, the
-- retries stay within the limit, and unless the sender is idle it holds an update whose versions
-- increase, whose numbers are valid, and whose stored CRC is the one of its payload.
pub run-Inv :
    (sender_id max_retries : ℕ) (es : List Event)
    → max_retries < 256
    → IsInv (run (sender_init sender_id max_retries) es)
unfolding sender_init
run-Inv sender_id max_retries es h =
    run_keeps es (sender_init sender_id max_retries)
      (record { small = h; bounded = omega arith; offered = λ busy. absurd (busy refl) })
