-- ===== src/Runtime/Retries.antt =====
-- Timeouts one after another, of the sender and of the receiver of src/num8lora_runtime.c.
use num8_lup.Base.{ℕ, ◌+◌, ◌-◌, ◌≤◌, ◌<◌, ◌≡◌, ◌⊎◌, ◌↔◌, sym, subst, arith, List, [], ◌∷◌, length}
use num8_lup.Runtime.Types.{SenderCtx, idle, wait_ack, ReceiverCtx, scan, wait_update}
use num8_lup.Runtime.Sender.{sender_on_ack_timeout}
use num8_lup.Runtime.Receiver.{receiver_on_update_timeout}

-- Timeouts one after another, with the capacities of the buffers.
unfoldable pub sender_timeouts : SenderCtx → List ℕ → SenderCtx
sender_timeouts ctx [] = ctx
sender_timeouts ctx (size ∷ sizes) = sender_timeouts (sender_on_ack_timeout ctx size).1 sizes

unfoldable pub receiver_timeouts : ReceiverCtx → List ℕ → ReceiverCtx
receiver_timeouts ctx [] = ctx
receiver_timeouts ctx (size ∷ sizes) =
    receiver_timeouts (receiver_on_update_timeout ctx size).1 sizes

idle_kept :
    (ctx : SenderCtx) (size : ℕ) → ctx.state ≡ idle → (sender_on_ack_timeout ctx size).1 ≡ ctx
unfolding sender_on_ack_timeout
idle_kept ctx size e = ground (arith, e)

scan_kept :
    (ctx : ReceiverCtx) (size : ℕ)
    → ctx.state ≡ scan
    → (receiver_on_update_timeout ctx size).1 ≡ ctx
unfolding receiver_on_update_timeout
scan_kept ctx size e = ground (arith, e)

idle_stays :
    (sizes : List ℕ) (ctx : SenderCtx) → ctx.state ≡ idle → (sender_timeouts ctx sizes).state ≡ idle
unfolding sender_timeouts
idle_stays [] ctx e = e
idle_stays (size ∷ sizes) ctx e =
    idle_stays sizes (sender_on_ack_timeout ctx size).1
      (subst (λ c. c.state ≡ idle) (sym (idle_kept ctx size e)) e)

scan_stays :
    (sizes : List ℕ) (ctx : ReceiverCtx)
    → ctx.state ≡ scan
    → (receiver_timeouts ctx sizes).state ≡ scan
unfolding receiver_timeouts
scan_stays [] ctx e = e
scan_stays (size ∷ sizes) ctx e =
    scan_stays sizes (receiver_on_update_timeout ctx size).1
      (subst (λ c. c.state ≡ scan) (sym (scan_kept ctx size e)) e)

-- One timeout: it gives up, or it counts.
sender_cases :
    (ctx : SenderCtx) (size : ℕ)
    → ctx.state ≡ wait_ack
    → ctx.max_retries < 256
    → let c = (sender_on_ack_timeout ctx size).1 in
      ((ctx.max_retries ≤ ctx.retries) × (c.state ≡ idle))
      ⊎ ((ctx.retries < ctx.max_retries)
          × (c.state ≡ wait_ack)
          × (c.retries ≡ ctx.retries + 1)
          × (c.max_retries ≡ ctx.max_retries))
unfolding sender_on_ack_timeout
sender_cases ctx size e small = ground arith

receiver_cases :
    (ctx : ReceiverCtx) (size : ℕ)
    → ctx.state ≡ wait_update
    → ctx.max_retries < 256
    → let c = (receiver_on_update_timeout ctx size).1 in
      ((ctx.max_retries ≤ ctx.retries) × (c.state ≡ scan))
      ⊎ ((ctx.retries < ctx.max_retries)
          × (c.state ≡ wait_update)
          × (c.retries ≡ ctx.retries + 1)
          × (c.max_retries ≡ ctx.max_retries))
unfolding receiver_on_update_timeout
receiver_cases ctx size e small = ground arith

-- A batch sender that waits for an ACK, its retries within an 8-bit limit, is idle after a
-- sequence of timeouts, with buffers of any size, if and only if there are more timeouts than
-- retries left.
pub sender_timeouts_lem :
    (sizes : List ℕ) (ctx : SenderCtx)
    → ctx.state ≡ wait_ack
    → ctx.max_retries < 256
    → ctx.retries ≤ ctx.max_retries
    → ((sender_timeouts ctx sizes).state ≡ idle) ↔ (ctx.max_retries - ctx.retries < length sizes)
unfolding sender_timeouts
sender_timeouts_lem [] ctx e small h = ground arith
sender_timeouts_lem (size ∷ sizes) ctx e small h =
    let c = (sender_on_ack_timeout ctx size).1 in
    ground (arith, sender_cases ctx size e small, idle_stays sizes c, sender_timeouts_lem sizes c)

-- A batch receiver that waits for an update, its retries within an 8-bit limit, is back to
-- scanning after a sequence of timeouts, with buffers of any size, if and only if there are more
-- timeouts than retries left.
pub receiver_timeouts_lem :
    (sizes : List ℕ) (ctx : ReceiverCtx)
    → ctx.state ≡ wait_update
    → ctx.max_retries < 256
    → ctx.retries ≤ ctx.max_retries
    → ((receiver_timeouts ctx sizes).state ≡ scan) ↔ (ctx.max_retries - ctx.retries < length sizes)
unfolding receiver_timeouts
receiver_timeouts_lem [] ctx e small h = ground arith
receiver_timeouts_lem (size ∷ sizes) ctx e small h =
    let c = (receiver_on_update_timeout ctx size).1 in
    ground
      (arith, receiver_cases ctx size e small, scan_stays sizes c, receiver_timeouts_lem sizes c)
