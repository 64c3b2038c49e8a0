-- ===== src/Kernel/Endurance.antt =====
-- tools/durable_mission_kernel/endurance.py: `SyntheticEnduranceCanary.run`, which drives a mission
-- of the ledger from its creation to its completion.
mod Steps
mod Passes
mod Tests
use second_brain_coordinatio.Prelude.{
  ℕ, zero, suc, ◌+◌, ◌/◌, ◌%◌, Text, codes, Bool, true, false, List, [], ◌∷◌, ◌++◌, ◌==◌, ◌&&◌, ltb,
  leb, if◌then◌else◌, Result, ok, err, ◌>>=◌, ◌>>◌, raise_if, not, length,
}
use second_brain_coordinatio.Prelude.Int.{pos}
use second_brain_coordinatio.Kernel.Schemas
use second_brain_coordinatio.Kernel.Schemas.{State, active, waiting, MissionState, WaitState}
use second_brain_coordinatio.Kernel.Reducers.{is_complete}
use second_brain_coordinatio.Kernel.Canonical.Json.{
  Value, str, int, obj, Fields, end, field, jcs_number,
}
use second_brain_coordinatio.Kernel.Tables.{
  Ledger, LedgerError, crashed_chain, checkpoint, current_state, read_events,
}
use second_brain_coordinatio.Kernel.Ledger.{
  create_mission, append_event, verify_chain, Replayed, replay_state,
}

-- The values of `MissionState` and of `WaitState`.
unfoldable pub state_value : State → Text
state_value (active MissionState.created) = codes "CREATED"
state_value (active MissionState.planning) = codes "PLANNING"
state_value (active MissionState.ready) = codes "READY"
state_value (active MissionState.episode_running) = codes "EPISODE_RUNNING"
state_value (active MissionState.checkpointed) = codes "CHECKPOINTED"
state_value (active MissionState.verifying) = codes "VERIFYING"
state_value (active MissionState.remediating) = codes "REMEDIATING"
state_value (active MissionState.review_ready) = codes "REVIEW_READY"
state_value (active MissionState.reviewing) = codes "REVIEWING"
state_value (active MissionState.canonicalization_ready) = codes "CANONICALIZATION_READY"
state_value (active MissionState.canonicalizing) = codes "CANONICALIZING"
state_value (active MissionState.complete) = codes "COMPLETE"
state_value (waiting WaitState.paused_owner_gate) = codes "PAUSED_OWNER_GATE"
state_value (waiting WaitState.paused_dependency) = codes "PAUSED_DEPENDENCY"
state_value (waiting WaitState.blocked) = codes "BLOCKED"
state_value (waiting WaitState.failed_circuit_breaker) = codes "FAILED_CIRCUIT_BREAKER"
state_value (waiting WaitState.cancelled) = codes "CANCELLED"
state_value (State.unlisted t) = t

pub record CanaryReport : Type 0 where
  pub mission_id : Text
  pub final_state : State
  pub total_events : ℕ
  pub episodes : ℕ
  pub worker_failures_injected : ℕ
  pub context_rollovers : ℕ
  pub chain_verified : Bool
  pub passed : Bool
  pub evidence : List Text

-- The variables of `run`, with the tables of the ledger.
pub record Progress : Type 0 where
  pub ledger : Ledger
  pub worker_failures : ℕ
  pub rollovers : ℕ
  pub evidence : List Text

-- `str(n)` and `f"{n:02d}"`
unfoldable pub decimal : ℕ → Text
unfolding jcs_number
decimal n = jcs_number (pos n) []

unfoldable pub two_digits : ℕ → Text
unfolding decimal
two_digits n = if ltb n 10 then b'0' ∷ decimal n else decimal n

-- A timestamp at a minute and a second of the hour.
unfoldable pub at_minute : ℕ → Text → Text
unfolding two_digits
at_minute minute second =
    codes "2026-09-09T00:" ++ two_digits minute ++ b':' ∷ (second ++ codes "Z")

-- The first episode starts, the others resume.
unfoldable pub resume_event : ℕ → Text
resume_event ep = if ep == 1 then codes "EPISODE_STARTED" else codes "EPISODE_RESUMED"

abbrev pub planning_events : List (Text × Text)
planning_events =
    (codes "PLAN_STARTED", codes "2026-09-09T00:00:01Z")
    ∷ (codes "PLAN_COMPLETED", codes "2026-09-09T00:00:02Z")
    ∷ []

abbrev pub finishing_events : List (Text × Text)
finishing_events =
    (codes "VERIFICATION_STARTED", codes "2026-09-09T00:59:00Z")
    ∷ (codes "VERIFICATION_PASSED", codes "2026-09-09T00:59:10Z")
    ∷ (codes "REVIEW_STARTED", codes "2026-09-09T00:59:20Z")
    ∷ (codes "REVIEW_APPROVED", codes "2026-09-09T00:59:30Z")
    ∷ (codes "CANONICALIZATION_STARTED", codes "2026-09-09T00:59:40Z")
    ∷ (codes "CANONICALIZATION_COMPLETED", codes "2026-09-09T00:59:50Z")
    ∷ []

-- `{"episode": ep, "state": "EPISODE_RUNNING"}`
unfoldable pub episode_snapshot : ℕ → Value
episode_snapshot ep = obj (
    field (codes "episode") (int (pos ep))
      (field (codes "state") (str (codes "EPISODE_RUNNING")) end))

-- What the crash adds to the variables, and what the end of an episode adds.
unfoldable pub crashed : Progress → Progress
crashed p = record p {
  worker_failures = p.worker_failures + 1;
  evidence = p.evidence ++ codes "worker_failure: simulated crash + reopen at episode 2" ∷ [];
}

unfoldable pub rolled_over : ℕ → Replayed → Progress → Progress
rolled_over ep snapshot p = record p {
  rollovers = p.rollovers + 1;
  evidence =
      p.evidence
      ++ (codes "context_rollover: episode "
          ++ decimal ep
          ++ codes " replayed to "
          ++ state_value snapshot.state)
        ∷ [];
}

module _ (sha256 : Text → Text) (mission_id : Text) where
  -- `led.append_event(mission_id=..., event_type=..., actor="CANARY", timestamp_iso=...)`
  unfoldable pub emit_event : Text → Text → Ledger → Result LedgerError Ledger
  emit_event event_type timestamp_iso l = do
    r ←
        append_event sha256 mission_id event_type (codes "CANARY") timestamp_iso (obj end) (obj end)
          l
    ok r.1

  -- The calls of `append_event` that follow one another, each an event with its timestamp.
  unfoldable pub emit_events : List (Text × Text) → Ledger → Result LedgerError Ledger
  emit_events [] l = ok l
  emit_events ((event_type, timestamp_iso) ∷ events) l = do
    l' ← emit_event event_type timestamp_iso l
    emit_events events l'

  -- The simulated crash: the ledger is closed and opened again, which leaves its tables alone, and
  -- its chain has to verify.
  unfoldable pub crash : Progress → Result LedgerError Progress
  crash p = do
    verified ← verify_chain sha256 mission_id p.ledger
    raise_if (not verified) crashed_chain
    ok (crashed p)

  unfoldable pub maybe_crash : Bool → Progress → Result LedgerError Progress
  maybe_crash true p = crash p
  maybe_crash false p = ok p

  -- One round of the loop over the episodes.
  unfoldable pub episode : Bool → ℕ → Progress → Result LedgerError Progress
  episode inject ep p = do
    started ← emit_event (resume_event ep) (at_minute ep (codes "00")) p.ledger
    marked ← checkpoint mission_id (episode_snapshot ep) (at_minute ep (codes "30")) started
    q ← maybe_crash (inject && (ep == 2)) (record p { ledger = marked })
    reached ← emit_event (codes "CHECKPOINT_REACHED") (at_minute ep (codes "40")) q.ledger
    snapshot ← replay_state sha256 mission_id reached
    ok (rolled_over ep snapshot (record q { ledger = reached }))

  -- `for ep in range(ep, ep + rounds)`
  unfoldable pub episode_loop : Bool → ℕ → ℕ → Progress → Result LedgerError Progress
  episode_loop inject zero ep p = ok p
  episode_loop inject (suc rounds) ep p = do
    q ← episode inject ep p
    episode_loop inject rounds (suc ep) q

  -- The end of `run`, from the reading of the final state on.
  unfoldable pub report : ℕ → Bool → Progress → Result LedgerError CanaryReport
  report episodes inject p = do
    final_state ← current_state mission_id p.ledger
    events ← read_events mission_id p.ledger
    chain_verified ← verify_chain sha256 mission_id p.ledger
    ok (record {
      mission_id = mission_id;
      final_state = final_state;
      total_events = length events;
      episodes = episodes;
      worker_failures_injected = p.worker_failures;
      context_rollovers = p.rollovers;
      chain_verified = chain_verified;
      passed =
          is_complete final_state
          && chain_verified
          && leb (if inject then 1 else 0) p.worker_failures
          && leb 1 p.rollovers;
      evidence = p.evidence;
    })

  -- `SyntheticEnduranceCanary(path, episodes, inject).run(mission_id)` on the tables at the path.
  unfoldable pub run : ℕ → Bool → Ledger → Result LedgerError CanaryReport
  run episodes inject l = do
    created ←
        create_mission sha256 mission_id (codes "run-canary") (codes "2026-09-09T00:00:00Z")
          (codes "WORKBUDDY_ENGINEERING_EXECUTOR") l
    planned ← emit_events planning_events created
    driven ←
        episode_loop inject episodes 1
          (record { ledger = planned; worker_failures = 0; rollovers = 0; evidence = [] })
    finished ← emit_events finishing_events driven.ledger
    report episodes inject (record driven { ledger = finished })
