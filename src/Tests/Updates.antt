-- ===== src/Tests/Updates.antt =====
-- An update of the batch protocol, a sender that offers it, a receiver that lacks it, and a list that
-- stands for a NUM8 engine.
use num8_lup.Base.{
  ℕ, ◌≡◌, ◌≢◌, inr, refl, arith, Bool, false, ◌==◌, some, List, [], ◌∷◌, if◌then◌else◌,
}
use num8_lup.Batch.{Numbers, UpdateHeader, occurs}
use num8_lup.Batch.Validity.{AreValid}
use num8_lup.Batch.Inverse.{IsUpdate}
use num8_lup.Runtime.{SenderCtx, ReceiverCtx, wait_request, wait_update, scan}
use num8_lup.Runtime.Steps.{IsOffer}
use num8_lup.Bridge.Engine.{ok, added, removed, Engine, IsLawful}
use num8_lup.Exchange.Offer.{IsSending, IsListening}

abbrev pub update : UpdateHeader
update = record {
  update_id = 5;
  dataset_version_from = 1;
  dataset_version_to = 2;
  remove_count = 1;
  add_count = 2;
  reserved0 = 0;
}

abbrev pub removes : Numbers
removes = some (10 ∷ [])

abbrev pub adds : Numbers
adds = some (20 ∷ 30 ∷ [])

pub update-AreValid : AreValid update removes adds
update-AreValid = (
  refl,
  refl,
  ((omega arith, tt), (tt, tt)),
  ((omega arith, (omega arith, tt)), ((omega arith, tt), (tt, tt))),
  ((omega arith, (omega arith, tt)), tt),
)

pub update-IsUpdate : IsUpdate update removes adds
update-IsUpdate = record {
  id = omega arith;
  from = omega arith;
  to = omega arith;
  remove_small = omega arith;
  add_small = omega arith;
  removes_there = omega arith;
  adds_there = omega arith;
  remove_words = (omega arith, tt);
  add_words = (omega arith, (omega arith, tt));
}

pub update-IsOffer : IsOffer update removes adds 13733
unfolding num8_lup.Batch.compute_update_payload_crc16 num8_lup.Codec.crc_byte
update-IsOffer = record {
  forward = omega arith;
  reserved = refl;
  numbers = update-AreValid;
  crc = refl;
}

abbrev pub offering : SenderCtx
offering = record {
  state = wait_request;
  sender_id = 7;
  target_receiver_id = 9;
  seq = 1;
  max_retries = 2;
  retries = 0;
  update_hdr = update;
  remove_numbers = removes;
  add_numbers = adds;
  update_payload_crc16 = 13733;
  last_nack_error = 0;
}

pub offering-IsSending : IsSending offering
offering-IsSending = record {
  busy = λ e. cc;
  id = omega arith;
  id_small = omega arith;
  seq_small = omega arith;
  update_id = omega arith;
  typed = update-IsUpdate;
  offer = update-IsOffer;
}

abbrev pub listening : ReceiverCtx
listening = record {
  state = scan;
  receiver_id = 9;
  expected_sender_id = 7;
  seq = 1;
  max_retries = 2;
  retries = 0;
  local_dataset_version = 1;
  last_applied_update_id = 4;
  last_applied_sender_id = 7;
  last_applied_receiver_id = 9;
  last_applied_dataset_version_from = 0;
  last_applied_dataset_version_to = 1;
  last_applied_remove_count = 0;
  last_applied_add_count = 1;
  last_applied_payload_size = 20;
  last_applied_payload_crc16 = 77;
  pending_update_id = 0;
  pending_dataset_version_from = 0;
  pending_dataset_version_to = 0;
  pending_remove_count = 0;
  pending_add_count = 0;
  pending_payload_size = 0;
  pending_payload_crc16 = 0;
}

pub listening-IsListening : IsListening offering listening
listening-IsListening = record {
  id = omega arith;
  id_small = omega arith;
  seq_small = omega arith;
  listens = inr refl;
  version = refl;
}

-- The receiver after the beacon of that update.
abbrev pub awaiting : ReceiverCtx
awaiting = record listening {
  state = wait_update;
  seq = 2;
  pending_update_id = 5;
  pending_dataset_version_from = 1;
  pending_dataset_version_to = 2;
  pending_remove_count = 1;
  pending_add_count = 2;
  pending_payload_size = 28;
  pending_payload_crc16 = 13733;
}

-- The frame with that update.
abbrev pub update_frame : List ℕ
update_frame =
    1 ∷ 3 ∷ 7 ∷ 0 ∷ 9 ∷ 0 ∷ 2 ∷ 0 ∷ 5 ∷ 0 ∷ 0 ∷ 0 ∷ 1 ∷ 0 ∷ 0 ∷ 0 ∷ 2 ∷ 0 ∷ 0 ∷ 0 ∷ 1 ∷ 2 ∷ 0 ∷ 0
    ∷ 10 ∷ 0 ∷ 0 ∷ 0 ∷ 20 ∷ 0 ∷ 0 ∷ 0 ∷ 30 ∷ 0 ∷ 0 ∷ 0 ∷ 131 ∷ 221 ∷ []

-- A list of numbers as an engine on which every call succeeds.
unfoldable pub without : ℕ → List ℕ → List ℕ
without v [] = []
without v (x ∷ xs) = let rest = without v xs in if x == v then rest else x ∷ rest

abbrev pub list_engine : Engine
list_engine = record {
  State = List ℕ;
  remove = λ e v. (without v e, removed);
  add = λ e v. (v ∷ e, added);
  flush = λ e. (e, ok);
}

abbrev pub holds : List ℕ → ℕ → Bool
holds e u = occurs u e

without_same : (e : List ℕ) (v : ℕ) → occurs v (without v e) ≡ false
unfolding without occurs
without_same [] v = refl
without_same (x ∷ xs) v = ground (arith, without_same xs v)

without_rest : (e : List ℕ) (v u : ℕ) → u ≢ v → occurs u (without v e) ≡ occurs u e
unfolding without occurs
without_rest [] v u h = refl
without_rest (x ∷ xs) v u h = ground (arith, without_rest xs v u h)

pub list_engine-IsLawful : IsLawful list_engine holds
unfolding occurs
list_engine-IsLawful = record {
  remove_same = λ e v done. without_same e v;
  remove_rest = λ e v u h. without_rest e v u h;
  add_same = λ e v done. ground arith;
  add_rest = λ e v u h. ground (arith, h);
  flush_rest = λ e u. refl;
}
