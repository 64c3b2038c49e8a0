-- ===== src/Kernel/Reducers.antt =====
-- tools/durable_mission_kernel/reducers.py: the transition function of a mission.
mod Laws
mod Tests
use second_brain_coordinatio.Prelude.{
  Bool, true, false, Option, none, some, List, [], ◌∷◌, Result, ok, err, ◌>>=◌, if◌then◌else◌,
}
use second_brain_coordinatio.Kernel.Schemas
use second_brain_coordinatio.Kernel.Schemas.{
  MissionState, WaitState, State, active, waiting, EventType, Event, listed, is_active,
}

-- The exception of an illegal transition, with what its message names.
pub data ReducerError : Type 0 where
  illegal_transition : State → Event → ReducerError

-- `_TRANSITIONS.get((state, event))`
unfoldable pub transitions : MissionState → EventType → Option State
transitions MissionState.created EventType.plan_started = some (active MissionState.planning)
transitions MissionState.planning EventType.plan_completed = some (active MissionState.ready)
transitions MissionState.ready EventType.episode_started =
    some (active MissionState.episode_running)
transitions MissionState.episode_running EventType.checkpoint_reached =
    some (active MissionState.checkpointed)
transitions MissionState.episode_running EventType.circuit_breaker_tripped =
    some (waiting WaitState.failed_circuit_breaker)
transitions MissionState.checkpointed EventType.episode_resumed =
    some (active MissionState.episode_running)
transitions MissionState.checkpointed EventType.verification_started =
    some (active MissionState.verifying)
transitions MissionState.verifying EventType.verification_passed =
    some (active MissionState.review_ready)
transitions MissionState.verifying EventType.verification_failed =
    some (active MissionState.remediating)
transitions MissionState.remediating EventType.remediation_completed =
    some (active MissionState.verifying)
transitions MissionState.review_ready EventType.review_started =
    some (active MissionState.reviewing)
transitions MissionState.reviewing EventType.review_approved =
    some (active MissionState.canonicalization_ready)
transitions MissionState.reviewing EventType.review_rejected =
    some (active MissionState.remediating)
transitions MissionState.canonicalization_ready EventType.canonicalization_started =
    some (active MissionState.canonicalizing)
transitions MissionState.canonicalizing EventType.canonicalization_completed =
    some (active MissionState.complete)
transitions _ _ = none

-- `_ANY_ACTIVE_PAUSES.get(event)`
unfoldable pub any_active_pauses : EventType → Option WaitState
any_active_pauses EventType.paused_owner_gate = some WaitState.paused_owner_gate
any_active_pauses EventType.paused_dependency = some WaitState.paused_dependency
any_active_pauses EventType.blocked = some WaitState.blocked
any_active_pauses EventType.cancelled = some WaitState.cancelled
any_active_pauses _ = none

-- The two lookups that follow the test for GENESIS, at an active state.
from_active : MissionState → EventType → Option State → Option WaitState → Result ReducerError State
from_active s e (some next) _ = ok next
from_active s e none (some w) = ok (waiting w)
from_active s e none none = err (illegal_transition (active s) (listed e))

-- Only active states are keys of the table and only they may pause.
other_event : State → EventType → Result ReducerError State
unfolding from_active
other_event (active s) e = from_active s e (transitions s e) (any_active_pauses e)
other_event s e = err (illegal_transition s (listed e))

unfoldable pub reduce_state : State → Event → Result ReducerError State
unfolding other_event transitions any_active_pauses
reduce_state s (listed EventType.genesis) = ok s
reduce_state s (listed e) = other_event s e
reduce_state s (Event.unlisted t) = err (illegal_transition s (Event.unlisted t))

unfoldable pub is_terminal_or_wait : State → Bool
is_terminal_or_wait (waiting _) = true
is_terminal_or_wait _ = false

unfoldable pub is_complete : State → Bool
is_complete (active MissionState.complete) = true
is_complete _ = false

unfoldable pub initial_state : State
initial_state = active MissionState.created

-- The loop of `replay_state`: the events of a mission, reduced in order.
unfoldable pub reduce_all : State → List Event → Result ReducerError State
reduce_all s [] = ok s
reduce_all s (e ∷ es) = do next ← reduce_state s e; reduce_all next es
