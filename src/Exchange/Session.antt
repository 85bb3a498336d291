-- ===== src/Exchange/Session.antt =====
-- A whole exchange of the batch protocol over a link that loses nothing.
use num8_lup.Base.{ℕ, ◌+◌, ◌*◌, ◌≤◌, ◌≡◌, ◌≢◌, sym, refl, arith, Bool, true, some, List, take}
use num8_lup.Base.Words.{u16}
use num8_lup.Op.{AreIds}
use num8_lup.Batch.{array, UpdateHeader}
use num8_lup.Runtime.{
  SenderCtx, ReceiverCtx, idle, applied, sender_build_beacon, sender_handle_update_request,
  sender_handle_ack_or_nack, receiver_handle_beacon,
}
use num8_lup.Bridge.{apply_numbers, applied_ctx, receiver_apply_update_data_to_num8}
use num8_lup.Bridge.Engine.{Engine, IsLawful}
use num8_lup.Bridge.Sets.{member, apply_numbers_lem}
use num8_lup.Exchange.Frames.{data_frame}
use num8_lup.Exchange.Offer.{
  IsSending, IsListening, beacon_frame, request_frame, asked, answered_sender,
  sender_build_beacon_lem, receiver_handle_beacon_lem, sender_handle_update_request_lem,
}
use num8_lup.Exchange.Accept.{IsAwaiting}
use num8_lup.Exchange.Apply.{
  ack_frame, sender_handle_ack_lem, receiver_apply_update_data_to_num8_lem,
}

-- The sender once its beacon is out.
abbrev pub announced : SenderCtx → SenderCtx
announced s = record s { seq = u16 (s.seq + 1) }

-- The buffers have room for the four frames.
abbrev pub HaveRoom : UpdateHeader → ℕ → ℕ → ℕ → ℕ → Type 0
HaveRoom hdr beacon request update ack =
    (28 ≤ beacon)
    × (18 ≤ request)
    × (26 + 4 * hdr.remove_count + 4 * hdr.add_count ≤ update)
    × (18 ≤ ack)

module _ (engine : Engine) (holds : engine.State → ℕ → Bool) (lawful : IsLawful engine holds)
    (s : SenderCtx) (r : ReceiverCtx) (e : engine.State) (sending : IsSending s)
    (listening : IsListening s r) (fresh : s.update_hdr.update_id ≢ r.last_applied_update_id)
    (beacon request update ack : ℕ) (room : HaveRoom s.update_hdr beacon request update ack) where
  abbrev removes : List ℕ
  removes = take s.update_hdr.remove_count (array s.remove_numbers)

  abbrev adds : List ℕ
  adds = take s.update_hdr.add_count (array s.add_numbers)

  still_sending : IsSending (announced s)
  still_sending = record {
    busy = sending.busy;
    id = sending.id;
    id_small = sending.id_small;
    seq_small = omega arith;
    update_id = sending.update_id;
    typed = sending.typed;
    offer = sending.offer;
  }

  still_listening : IsListening (announced s) r
  still_listening = record {
    id = listening.id;
    id_small = listening.id_small;
    seq_small = listening.seq_small;
    listens = listening.listens;
    version = listening.version;
  }

  waiting : IsAwaiting (asked s r) s.update_hdr s.update_payload_crc16
  waiting = record {
    state = refl;
    fresh = fresh;
    id = refl;
    local = sym listening.version;
    from = refl;
    to = refl;
    remove_count = refl;
    add_count = refl;
    size = refl;
    crc = refl;
  }

  -- The four frames, and what the calls return and leave behind.
  abbrev pub Completes : Type 0
  Completes =
      (fb : List ℕ) × (fr : List ℕ) × (fu : List ℕ) × (fa : List ℕ) × (s2 : SenderCtx)
      × (r2 : ReceiverCtx) × (e2 : engine.State) × (sender_build_beacon s beacon
          ≡ (some fb, announced s))
      × (receiver_handle_beacon r fb request ≡ (some fr, asked s r))
      × (sender_handle_update_request (announced s) fr update ≡ (some fu, s2))
      × (receiver_apply_update_data_to_num8 engine (asked s r) e fu ack ≡ (some fa, 0, r2, e2))
      × (sender_handle_ack_or_nack s2 fa
          ≡ (true, applied, 0, record s2 { state = idle; retries = 0 }))
      × (r2.local_dataset_version ≡ s.update_hdr.dataset_version_to)
      × (r2.last_applied_update_id ≡ s.update_hdr.update_id)
      × ((u : ℕ) → holds e2 u ≡ member (holds e u) removes adds u)

  -- A sender with an update on offer, a receiver that listens to it and holds the version the
  -- update starts from but not that update, and an engine with a set that its calls change as
  -- documented, all fields in the ranges of their C types: if the buffers have room and the calls
  -- on the engine for the numbers succeed, then the BEACON, the UPDATE_REQUEST, the UPDATE_DATA
  -- and the ACK are each answered by the next, the sender reports the update applied and is idle,
  -- the receiver holds the new version and the update's id, and the engine holds the numbers it
  -- had less the removed ones and the added ones.
  pub exchange_lem : (apply_numbers engine e removes adds).0 ≡ true → Completes
  unfolding applied_ctx
  exchange_lem works =
      let h = s.update_hdr in
      let s1 = announced s in
      let s2 = answered_sender s1 still_sending r still_listening update in
      let r1 = asked s r in
      let update_ids : AreIds s.sender_id r.receiver_id s1.seq =
        (sending.id_small, listening.id_small, omega arith) in
      let ack_ids : AreIds r.receiver_id s.sender_id r1.seq =
        (listening.id_small, sending.id_small, omega arith) in
      (
        beacon_frame s,
        request_frame s r,
        data_frame s.sender_id r.receiver_id s1.seq h s.remove_numbers s.add_numbers,
        ack_frame r.receiver_id s.sender_id r1.seq h,
        s2,
        applied_ctx engine r1 s.sender_id h h.dataset_version_to h.update_id,
        (apply_numbers engine e removes adds).1,
        sender_build_beacon_lem s sending beacon room.0,
        receiver_handle_beacon_lem s sending r listening request room.1,
        sender_handle_update_request_lem s1 still_sending r still_listening update room.2,
        receiver_apply_update_data_to_num8_lem engine r1 h s.remove_numbers s.add_numbers
            s.update_payload_crc16 sending.typed sending.offer waiting e s.sender_id s1.seq
            update_ids (sending.id, listening.id, sending.update_id) listening.listens ack room.3
            works,
        sender_handle_ack_lem s2 r.receiver_id r1.seq refl ack_ids
            (listening.id, sending.id, sending.update_id) sending.typed.id sending.typed.to
            sending.offer.forward,
        refl,
        refl,
        λ u. apply_numbers_lem engine holds lawful e removes adds u works,
      )
