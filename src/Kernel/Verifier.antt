-- ===== src/Kernel/Verifier.antt =====
-- tools/durable_mission_kernel/verifier.py: event records and the verification of a hash chain.
use second_brain_coordinatio.Prelude.{
  ℕ, ◌+◌, Text, codes, text_eq, mem_text, Bool, true, not, ◌&&◌, List, [], ◌∷◌, ◌==◌, Result, ok,
  err, ◌>>=◌, ◌>>◌, raise_if,
}
use second_brain_coordinatio.Kernel.Canonical.{Envelope, event_hash, genesis_previous_hash}
use second_brain_coordinatio.Kernel.Canonical.Json.{Value, obj, end}

-- The dict of an event.
pub record EventRecord : Type 0 where
  pub mission_id : Text
  pub run_id : Text
  pub state_seq : ℕ
  pub event_type : Text
  pub previous_event_hash : Text
  pub event_hash : Text
  pub actor : Text
  pub timestamp_iso : Text
  pub payload : Value
  pub digests : Value

-- The fields of an event that its hash covers, beside the previous hash.
abbrev pub covered : EventRecord → Envelope
covered ev = record {
  mission_id = ev.mission_id;
  run_id = ev.run_id;
  state_seq = ev.state_seq;
  event_type = ev.event_type;
  actor = ev.actor;
  timestamp_iso = ev.timestamp_iso;
  payload = ev.payload;
  digests = ev.digests;
}

-- `ChainVerificationError`, with the index that its message names.
pub data ChainError : Type 0 where
  empty_chain first_not_genesis : ChainError
  out_of_order previous_mismatch hash_mismatch duplicate_hash : ℕ → ChainError

-- The variables of the loop of `verify_event_chain`.
pub record Progress : Type 0 where
  pub index : ℕ
  pub expected_seq : ℕ
  pub prev_hash : Text
  pub seen_hashes : List Text

abbrev pub fresh : Progress
fresh = record { index = 0; expected_seq = 0; prev_hash = genesis_previous_hash; seen_hashes = [] }

module _ (sha256 : Text → Text) where
  -- One round of the loop.
  unfoldable pub verify_event : Progress → EventRecord → Result ChainError Progress
  verify_event p ev = do
    raise_if (not (ev.state_seq == p.expected_seq)) (out_of_order p.index)
    raise_if (not (text_eq ev.previous_event_hash p.prev_hash)) (previous_mismatch p.index)
    raise_if ((p.index == 0) && not (text_eq ev.event_type (codes "GENESIS"))) first_not_genesis
    raise_if (not (text_eq (event_hash sha256 p.prev_hash (covered ev)) ev.event_hash))
        (hash_mismatch p.index)
    raise_if (mem_text ev.event_hash p.seen_hashes) (duplicate_hash p.index)
    ok (record {
      index = p.index + 1;
      expected_seq = p.expected_seq + 1;
      prev_hash = ev.event_hash;
      seen_hashes = ev.event_hash ∷ p.seen_hashes;
    })

  unfoldable pub verify_events : Progress → List EventRecord → Result ChainError Progress
  unfolding verify_event
  verify_events p [] = ok p
  verify_events p (ev ∷ evs) = do q ← verify_event p ev; verify_events q evs

  -- `ok true` is the returned True
  unfoldable pub verify_event_chain : List EventRecord → Result ChainError Bool
  unfolding verify_events
  verify_event_chain [] = err empty_chain
  verify_event_chain (ev ∷ evs) = do p ← verify_events fresh (ev ∷ evs); ok true

  -- `build_genesis_event` with no payload
  unfoldable pub build_genesis_event : Text → Text → Text → Text → EventRecord
  build_genesis_event mission_id run_id actor timestamp_iso = record {
    mission_id = mission_id;
    run_id = run_id;
    state_seq = 0;
    event_type = codes "GENESIS";
    previous_event_hash = genesis_previous_hash;
    event_hash = event_hash sha256 genesis_previous_hash (record {
      mission_id = mission_id;
      run_id = run_id;
      state_seq = 0;
      event_type = codes "GENESIS";
      actor = actor;
      timestamp_iso = timestamp_iso;
      payload = obj end;
      digests = obj end;
    });
    actor = actor;
    timestamp_iso = timestamp_iso;
    payload = obj end;
    digests = obj end;
  }
