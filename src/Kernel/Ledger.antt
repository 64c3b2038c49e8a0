-- ===== src/Kernel/Ledger.antt =====
-- tools/durable_mission_kernel/ledger.py: `MissionLedger`. An operation that raises leaves the
-- tables alone, since its transaction rolls back.
mod Rows
pub mod Chain
pub mod Invariant
pub mod Replay
mod Tests
use second_brain_coordinatio.Kernel.Tables.{
  Ledger, LedgerError, Mission, append_event_locked, head_hash_locked, lift_chain, lift_reducer,
  mission_exists, or_unknown, read_events,
}
use second_brain_coordinatio.Prelude.{
  ℕ, suc, ◌+◌, ◌-◌, Text, codes, text_eq, Bool, true, false, ◌&&◌, Option, none, some, List, [],
  ◌∷◌, ◌++◌, Result, ok, err, ◌>>=◌, ◌>>◌, raise_if, is_some, Dict, lookup, insert, any, select,
  last, length, ◌==◌, leb, map, if◌then◌else◌,
}
use second_brain_coordinatio.Prelude.Int.{pos}
use second_brain_coordinatio.Kernel.Schemas
use second_brain_coordinatio.Kernel.Schemas.{State, active, Event, event_of_text}
use second_brain_coordinatio.Kernel.Reducers.{ReducerError, reduce_state}
use second_brain_coordinatio.Kernel.Canonical.{event_hash, genesis_previous_hash}
use second_brain_coordinatio.Kernel.Canonical.Json.{
  Value, str, int, obj, Fields, end, field, jcs_dumps,
}
use second_brain_coordinatio.Kernel.Canonical.Loads.{loads}
use second_brain_coordinatio.Kernel.Verifier.{
  EventRecord, covered, ChainError, verify_event_chain, build_genesis_event,
}

-- What `replay_state` returns; `state_seq` is `len(events) - 1`.
pub record Replayed : Type 0 where
  pub state : State
  pub state_seq : ℕ
  pub event_count : ℕ
  pub last_event_type : Option Text

-- The variables of the loop of `replay_state`.
unfoldable pub replay_loop :
    State → ℕ → Option Text → List EventRecord → Result LedgerError (State × ℕ × Option Text)
replay_loop s count last_type [] = ok (s, count, last_type)
replay_loop s count last_type (ev ∷ evs) = do
  next ← lift_reducer (reduce_state s (event_of_text ev.event_type))
  replay_loop next (count + 1) (some ev.event_type) evs

module _ (sha256 : Text → Text) where
  unfoldable pub create_mission : Text → Text → Text → Text → Ledger → Result LedgerError Ledger
  unfolding append_event_locked
  create_mission m run_id timestamp_iso actor l = do
    raise_if (is_some (lookup m l.missions)) (mission_exists m)
    append_event_locked (build_genesis_event sha256 m run_id actor timestamp_iso) (record l {
      missions =
          insert m
            (record {
              run_id = run_id;
              state = active Schemas.MissionState.created;
              state_seq = 0;
              created_at = timestamp_iso;
              updated_at = timestamp_iso;
            })
            l.missions;
    })

  -- The event that `append_event` builds, with its hash.
  unfoldable pub next_event :
      Text → Mission → Text → Text → Text → Value → Value → Text → EventRecord
  next_event m row event_type actor timestamp_iso payload digests prev_hash = record {
    mission_id = m;
    run_id = row.run_id;
    state_seq = row.state_seq + 1;
    event_type = event_type;
    previous_event_hash = prev_hash;
    event_hash = event_hash sha256 prev_hash (record {
      mission_id = m;
      run_id = row.run_id;
      state_seq = row.state_seq + 1;
      event_type = event_type;
      actor = actor;
      timestamp_iso = timestamp_iso;
      payload = payload;
      digests = digests;
    });
    actor = actor;
    timestamp_iso = timestamp_iso;
    payload = payload;
    digests = digests;
  }

  unfoldable pub append_event :
      Text → Text → Text → Text → Value → Value → Ledger → Result LedgerError (EventRecord × Ledger)
  unfolding append_event_locked head_hash_locked next_event
  append_event m event_type actor timestamp_iso payload digests l = do
    row ← or_unknown m (lookup m l.missions)
    next_state ← lift_reducer (reduce_state row.state (event_of_text event_type))
    let event =
        next_event m row event_type actor timestamp_iso payload digests (head_hash_locked m l)
    l' ← append_event_locked event (record l {
      missions =
          insert m
            (record row {
              state = next_state;
              state_seq = row.state_seq + 1;
              updated_at = timestamp_iso;
            })
            l.missions;
    })
    ok (event, l')

  unfoldable pub verify_chain : Text → Ledger → Result LedgerError Bool
  unfolding read_events
  verify_chain m l = do evs ← read_events m l; lift_chain (verify_event_chain sha256 evs)

  unfoldable pub replay_state : Text → Ledger → Result LedgerError Replayed
  unfolding read_events replay_loop
  replay_state m l = do
    evs ← read_events m l
    checked ← lift_chain (verify_event_chain sha256 evs)
    r ← replay_loop (active Schemas.MissionState.created) 0 none evs
    ok (record {
      state = r.0;
      state_seq = length evs - 1;
      event_count = r.1;
      last_event_type = r.2;
    })
