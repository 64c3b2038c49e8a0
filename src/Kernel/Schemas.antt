-- ===== src/Kernel/Schemas.antt =====
-- tools/durable_mission_kernel/schemas.py: states, events, and the write surfaces.
mod Surfaces
mod Tests
use second_brain_coordinatio.Prelude.{
  Text, codes, Bool, true, false, some, none, [], ◌∷◌, Dict, lookup, List, ◌++◌, ◌||◌, any, text_eq,
  starts_with, strip_suffix, slashes,
}

pub data MissionState : Type 0 where
  created planning ready episode_running checkpointed verifying remediating review_ready :
      MissionState
  reviewing canonicalization_ready canonicalizing complete : MissionState

pub data WaitState : Type 0 where
  paused_owner_gate paused_dependency blocked failed_circuit_breaker cancelled : WaitState

-- A state text: a member of `ACTIVE_STATES`, one of `WAIT_STATES`, or a text that is neither.
pub data State : Type 0 where
  active : MissionState → State
  waiting : WaitState → State
  unlisted : Text → State

pub data EventType : Type 0 where
  genesis plan_started plan_completed episode_started checkpoint_reached episode_resumed : EventType
  verification_started verification_passed verification_failed remediation_completed : EventType
  review_started review_approved review_rejected canonicalization_started : EventType
  canonicalization_completed circuit_breaker_tripped paused_owner_gate : EventType
  paused_dependency blocked cancelled worker_failure_injected context_rollover : EventType

-- An event text: the value of an `EventType`, or a text that is none.
pub data Event : Type 0 where
  listed : EventType → Event
  unlisted : Text → Event

-- `state in ACTIVE_STATES`
abbrev pub is_active : State → Bool
is_active (active _) = true
is_active (waiting _) = false
is_active (State.unlisted _) = false

-- The values of `EventType`.
abbrev event_values : Dict EventType
event_values =
    (codes "GENESIS", EventType.genesis)
    ∷ (codes "PLAN_STARTED", EventType.plan_started)
    ∷ (codes "PLAN_COMPLETED", EventType.plan_completed)
    ∷ (codes "EPISODE_STARTED", EventType.episode_started)
    ∷ (codes "CHECKPOINT_REACHED", EventType.checkpoint_reached)
    ∷ (codes "EPISODE_RESUMED", EventType.episode_resumed)
    ∷ (codes "VERIFICATION_STARTED", EventType.verification_started)
    ∷ (codes "VERIFICATION_PASSED", EventType.verification_passed)
    ∷ (codes "VERIFICATION_FAILED", EventType.verification_failed)
    ∷ (codes "REMEDIATION_COMPLETED", EventType.remediation_completed)
    ∷ (codes "REVIEW_STARTED", EventType.review_started)
    ∷ (codes "REVIEW_APPROVED", EventType.review_approved)
    ∷ (codes "REVIEW_REJECTED", EventType.review_rejected)
    ∷ (codes "CANONICALIZATION_STARTED", EventType.canonicalization_started)
    ∷ (codes "CANONICALIZATION_COMPLETED", EventType.canonicalization_completed)
    ∷ (codes "CIRCUIT_BREAKER_TRIPPED", EventType.circuit_breaker_tripped)
    ∷ (codes "PAUSED_OWNER_GATE", EventType.paused_owner_gate)
    ∷ (codes "PAUSED_DEPENDENCY", EventType.paused_dependency)
    ∷ (codes "BLOCKED", EventType.blocked)
    ∷ (codes "CANCELLED", EventType.cancelled)
    ∷ (codes "WORKER_FAILURE_INJECTED", EventType.worker_failure_injected)
    ∷ (codes "CONTEXT_ROLLOVER", EventType.context_rollover)
    ∷ []

-- The event that a text is the value of.
unfoldable pub event_of_text : Text → Event
unfolding lookup
event_of_text t = elim (lookup t event_values) [ some e ↦ listed e | none ↦ Event.unlisted t ]

abbrev pub tree_suffix : Text
tree_suffix = codes "/**"

-- One round of the loops over surfaces: a tree `base/**` holds the base and what lies below it.
unfoldable pub surface_matches : Text → Text → Bool
surface_matches p surface = elim (strip_suffix tree_suffix surface) [
  | some base ↦ text_eq p base || starts_with (base ++ codes "/") p
  | none ↦ text_eq p surface
]

abbrev pub authorized_write_surfaces : List Text
authorized_write_surfaces =
    codes "tools/durable_mission_kernel/**"
    ∷ codes "tests/durable_mission_kernel/**"
    ∷ codes "tests/test_unified_execution_durable_mission_kernel.py"
    ∷ codes "coordination/EXECUTION/PHASE-B-DURABLE-MISSION-KERNEL/**"
    ∷ codes "coordination/EXECUTION/WORKBUDDY-R188-PHASE-B-DURABLE-MISSION-KERNEL/**"
    ∷ []

abbrev pub protected_surfaces : List Text
protected_surfaces =
    codes "coordination/ACTIVE-WORKBUDDY-TASK.yaml"
    ∷ codes "coordination/EXECUTION/ACTIVE-WORKBUDDY-R184-LOCAL-BRIDGE.yaml"
    ∷ codes "coordination/EXECUTION/ACTIVE-TASK-INDEX-REGISTRY.json"
    ∷ codes "coordination/EXECUTION/unified_active_task_registry.py"
    ∷ codes ".github/workflows/unified-execution-fabric.yml"
    ∷ codes "coordination/GOVERNANCE/**"
    ∷ codes "tests/workbuddy/**"
    ∷ codes "tools/workbuddy/**"
    ∷ codes "tools/local_workbuddy_bridge/**"
    ∷ codes "tests/fixtures/local_workbuddy_bridge/**"
    ∷ codes "tests/test_unified_execution_local_bridge.py"
    ∷ []

unfoldable pub is_authorized_write_path : Text → Bool
unfolding surface_matches
is_authorized_write_path rel_path =
    any (surface_matches (slashes rel_path)) authorized_write_surfaces

unfoldable pub is_protected_path : Text → Bool
unfolding surface_matches
is_protected_path rel_path = any (surface_matches (slashes rel_path)) protected_surfaces
