-- ===== src/Sender/ReceiveInv.antt =====
-- Frames from the receivers keep the invariant.
use num8_lup.Base.{ℕ, ◌+◌, inl, inr, arith, Bool, false, List, Bool-cases, Option-cases}
use num8_lup.Base.Words.{u16}
use num8_lup.Op.{
  CommonHeader, RequestPayload, AckPayload, NackPayload, decode_request, decode_ack, decode_nack,
  clear_common,
}
use num8_lup.Sender.Types.{Sender, slot_at}
use num8_lup.Sender.Registry.{find_slot}
use num8_lup.Sender.Receive.{
  is_for_slot, handle_request, on_request, on_ack, on_nack, with_slot, handle_rx,
}
use num8_lup.Sender.Inv.{Inv, reclaim-Inv, put_slot-Inv, slot_at-SlotOk}
use num8_lup.Sender.TransmitInv.{counters-Inv}

on_request-Inv :
    {s : Sender} (i now_ms : ℕ) (p : RequestPayload) → Inv s → Inv (on_request s i now_ms p).1
unfolding on_request
on_request-Inv {s} i now_ms p v =
    let moved =
      put_slot-Inv i (record (slot_at s i) { due_at_ms = now_ms }) v (slot_at-SlotOk i v) in
    ground arith

on_ack-Inv : {s : Sender} (i : ℕ) (p : AckPayload) → Inv s → Inv (on_ack s i p).1
unfolding on_ack
on_ack-Inv {s} i p v =
    let moved = reclaim-Inv (
      put_slot-Inv i
        (record (slot_at s i) {
          last_acked_op_id = p.ack_op_id;
          waiting_ack = false;
          inflight_op_id = 0;
          retries = 0;
          exhausted = false;
        })
        v ((λ w. cc), omega arith)) in
    ground arith

on_nack-Inv : {s : Sender} (i now_ms : ℕ) (p : NackPayload) → Inv s → Inv (on_nack s i now_ms p).1
unfolding on_nack
on_nack-Inv {s} i now_ms p v =
    let moved = reclaim-Inv (
      put_slot-Inv i
        (record (slot_at s i) {
          waiting_ack = false;
          inflight_op_id = 0;
          retries = 0;
          exhausted = false;
          due_at_ms = now_ms;
        })
        v ((λ w. cc), omega arith)) in
    ground arith

with_slot-Inv :
    {s : Sender} (hdr : CommonHeader) (go : ℕ → Bool × Sender)
    → Inv s
    → ((i : ℕ) → Inv (go i).1)
    → Inv (with_slot s hdr go).1
unfolding with_slot
with_slot-Inv {s} hdr go v keep = elim (Option-cases (find_slot s.receivers hdr.sender_id)) [
  | inl absent ↦ rw (absent, with_slot) v
  | inr (i, found) ↦ elim (Bool-cases (is_for_slot s (slot_at s i) hdr)) [
    | inl fits ↦ rw (found, fits, with_slot) (keep i)
    | inr other ↦ rw (found, other, with_slot) v
  ]
]

-- `handle_rx` keeps the invariant of the sender, whatever the buffer holds.
pub handle_rx-Inv :
    (s : Sender) (now_ms : ℕ) (in_buf : List ℕ) → Inv s → Inv (handle_rx s now_ms in_buf).1
unfolding handle_rx
handle_rx-Inv s now_ms in_buf v =
    let (is_request, request_hdr, req) = decode_request in_buf clear_common in
    let (is_ack, ack_hdr, ack) = decode_ack in_buf clear_common in
    let (is_nack, nack_hdr, nack) = decode_nack in_buf clear_common in
    let a =
      with_slot-Inv request_hdr (λ i. on_request s i now_ms req) v
        (λ i. on_request-Inv i now_ms req v) in
    let b = with_slot-Inv ack_hdr (λ i. on_ack s i ack) v (λ i. on_ack-Inv i ack v) in
    let c =
      with_slot-Inv nack_hdr (λ i. on_nack s i now_ms nack) v (λ i. on_nack-Inv i now_ms nack v) in
    ground arith

-- `handle_request` keeps the invariant of the sender, whatever the buffer holds.
pub handle_request-Inv :
    (s : Sender) (in_buf : List ℕ) (out_cap : ℕ) → Inv s → Inv (handle_request s in_buf out_cap).1
unfolding handle_request
handle_request-Inv s in_buf out_cap v =
    let counted = counters-Inv (u16 (s.seq + 1)) s.poll_cursor v in ground arith

-- `handle_rx` and `handle_request` keep the invariant of the sender, whatever the buffer holds.
pub receive-Inv :
    (s : Sender) (now_ms out_cap : ℕ) (in_buf : List ℕ)
    → Inv s
    → Inv (handle_rx s now_ms in_buf).1 × Inv (handle_request s in_buf out_cap).1
receive-Inv s now_ms out_cap in_buf v =
    (handle_rx-Inv s now_ms in_buf v, handle_request-Inv s in_buf out_cap v)
