-- ===== src/ControlTower/Lifecycle/Projection.antt =====
-- worker_lifecycle.py: what the canonical projection of a slot says of its lifecycle.
pub mod InProgress
use second_brain_coordinatio.Prelude.{
  Text, codes, Bool, List, [], ◌∷◌, ◌++◌, ◌||◌, not, if◌then◌else◌, mem_text, text_eq, starts_with,
}
use second_brain_coordinatio.Kernel.Canonical.Json.{Value}
use second_brain_coordinatio.ControlTower.Values.{Mapping, get, is_true, text_or_empty}
use second_brain_coordinatio.ControlTower.Lifecycle.States.{
  LifecycleState, matches_projection_status, status_review_wait, status_accepted,
  status_canonical_merged, status_changes_required, status_released, closure_released,
  status_frozen_exact, status_frozen_prefixes, status_positive_current_execution,
}

abbrev pub Baseline : Type 0
Baseline = LifecycleState × List Text

-- `slot.get("execution_allowed") is True`
unfoldable pub execution_allowed : Mapping → Bool
unfolding get is_true
execution_allowed slot = is_true (get slot (codes "execution_allowed"))

unfoldable pub finding : Bool → Text → List Text
finding test code = if test then code ∷ [] else []

unfoldable pub with_summary : List Text → List Text
with_summary [] = []
with_summary (f ∷ fs) = (f ∷ fs) ++ codes "CONTRADICTORY_TERMINAL_PROJECTION_FAILS_CLOSED" ∷ []

-- A terminal state, unless the projection contradicts it.
unfoldable pub settle : LifecycleState → List Text → Baseline
settle state [] = (state, [])
settle state (f ∷ fs) = (LifecycleState.unknown, f ∷ fs)

-- A state that overrides the flag of the slot.
unfoldable pub ignoring_flag : LifecycleState → Bool → Text → Baseline
unfolding finding
ignoring_flag state allowed code = (state, finding allowed code)

-- `str.upper`, which reads the Unicode tables, and `repr` of lists and dicts are parameters.
module _ (upper : Text → Text) (repr : Value → Text) where
  -- `str(slot.get(key) or "").upper()`
  unfoldable pub upper_field : Mapping → Text → Text
  upper_field slot key = upper (text_or_empty repr (get slot key))

  -- The findings that are appended one after the other.
  unfoldable pub conflicts : Mapping → List Text
  conflicts slot =
      finding (text_eq (upper_field slot (codes "activation_state")) (codes "ACTIVE"))
        (codes "TERMINAL_CONFLICTS_WITH_ACTIVE_ACTIVATION")
      ++ finding (mem_text (upper_field slot (codes "status")) status_positive_current_execution)
          (codes "TERMINAL_CONFLICTS_WITH_ACTIVE_STATUS")
      ++ finding (execution_allowed slot) (codes "TERMINAL_CONFLICTS_WITH_EXECUTION_ALLOWED")

  unfoldable pub terminal_projection_conflict_findings : Mapping → List Text
  terminal_projection_conflict_findings slot = with_summary (conflicts slot)

  unfoldable pub terminal_or_unknown : LifecycleState → Mapping → Baseline
  terminal_or_unknown state slot = settle state (terminal_projection_conflict_findings slot)

  -- The end of `_baseline_from_projection`, from the resource class on.
  unfoldable pub legacy_baseline : Mapping → Text → Baseline
  legacy_baseline slot status =
      let resource_class = upper_field slot (codes "resource_class") in
      if text_eq resource_class (codes "REVIEW_WAIT_SLOT_OCCUPIED")
      then (LifecycleState.review_wait, codes "LIFECYCLE_RECOVERED_FROM_RESOURCE_CLASS" ∷ [])
      else if starts_with (codes "RESERVED_") resource_class
          || text_eq status (codes "ACTIVE_GOVERNED_PREWRITE")
      then (LifecycleState.reserved, codes "LIFECYCLE_RECOVERED_FROM_LEGACY_PROJECTION" ∷ [])
      else (LifecycleState.unknown, codes "UNKNOWN_LIFECYCLE_FAIL_CLOSED" ∷ [])

  -- The tests of the activation state that follow those of the status.
  unfoldable pub activation_baseline : Mapping → Text → Text → Bool → Baseline
  activation_baseline slot activation status allowed =
      if text_eq activation (codes "RESERVED") || text_eq activation (codes "PREWRITE_RESERVED")
      then ignoring_flag LifecycleState.reserved allowed (codes "RESERVED_EXECUTION_FLAG_IGNORED")
      else if text_eq activation (codes "ACTIVE")
      then (if not allowed
          then (LifecycleState.reserved, codes "ACTIVE_WITHOUT_EXECUTION_FAILS_CLOSED" ∷ [])
          else (LifecycleState.active, []))
      else legacy_baseline slot status

  -- The tests of the status that follow those for the terminal states.
  unfoldable pub status_baseline : Mapping → Text → Text → Bool → Baseline
  status_baseline slot activation status allowed =
      if matches_projection_status upper status status_accepted []
      then ignoring_flag LifecycleState.accepted allowed
          (codes "STALE_EXECUTION_FLAG_IGNORED_BY_ACCEPTED_STATE")
      else if matches_projection_status upper status status_changes_required []
      then ignoring_flag LifecycleState.changes_required allowed
          (codes "STALE_EXECUTION_FLAG_IGNORED_BY_CHANGES_REQUIRED")
      else if matches_projection_status upper status status_canonical_merged []
      then ignoring_flag LifecycleState.canonical_merged allowed
          (codes "STALE_EXECUTION_FLAG_IGNORED_BY_CANONICAL_MERGE")
      else if text_eq activation (codes "REVIEW_WAIT")
          || matches_projection_status upper status status_review_wait []
      then ignoring_flag LifecycleState.review_wait allowed
          (codes "STALE_EXECUTION_FLAG_IGNORED_BY_REVIEW_WAIT")
      else activation_baseline slot activation status allowed

  unfoldable pub baseline_from_projection : Mapping → Baseline
  baseline_from_projection slot =
      let activation = upper_field slot (codes "activation_state") in
      let closure = upper_field slot (codes "closure_state") in
      let status = upper_field slot (codes "status") in
      if text_eq closure (codes "RELEASED") || text_eq activation (codes "RELEASED")
      then terminal_or_unknown LifecycleState.released slot
      else if text_eq activation (codes "FROZEN")
          || matches_projection_status upper status status_frozen_exact status_frozen_prefixes
      then terminal_or_unknown LifecycleState.frozen slot
      else if text_eq activation (codes "CLOSED")
      then (if matches_projection_status upper status status_released []
            || mem_text closure closure_released
          then terminal_or_unknown LifecycleState.released slot
          else (LifecycleState.unknown, codes "AMBIGUOUS_CLOSED_PROJECTION_FAILS_CLOSED" ∷ []))
      else status_baseline slot activation status (execution_allowed slot)
