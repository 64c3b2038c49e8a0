-- ===== src/ControlTower/Lifecycle/States.antt =====
-- worker_lifecycle.py: the lifecycle states, the vocabularies of the projection and of the evidence,
-- and what each state means for a worker slot.
use second_brain_coordinatio.Prelude.{
  Text, codes, Bool, true, false, Option, none, some, List, [], ◌∷◌, ◌||◌, if◌then◌else◌, mem_text,
  text_eq, any, starts_with,
}
use second_brain_coordinatio.Prelude.Int.{ℤ, pos}

pub data LifecycleState : Type 0 where
  reserved active review_wait accepted changes_required canonical_merged released frozen unknown :
      LifecycleState

unfoldable pub state_text : LifecycleState → Text
state_text LifecycleState.reserved = codes "RESERVED_NON_EXECUTABLE"
state_text LifecycleState.active = codes "ACTIVE_EXECUTABLE"
state_text LifecycleState.review_wait = codes "ENGINEERING_STOPPED_REVIEW_WAIT"
state_text LifecycleState.accepted = codes "INDEPENDENTLY_ACCEPTED_AWAITING_CANONICALIZATION"
state_text LifecycleState.changes_required = codes "CHANGES_REQUIRED_REMEDIATION_ELIGIBLE"
state_text LifecycleState.canonical_merged = codes "CANONICAL_MERGED_AWAITING_CLOSEOUT"
state_text LifecycleState.released = codes "RELEASED_CLOSED"
state_text LifecycleState.frozen = codes "FROZEN_SUPERSEDED"
state_text LifecycleState.unknown = codes "UNKNOWN_FAIL_CLOSED"

-- The kinds of evidence.
abbrev pub prewrite_authorization : Text
prewrite_authorization = codes "PREWRITE_AUTHORIZATION"

abbrev pub route_or_lease_projection : Text
route_or_lease_projection = codes "ROUTE_OR_LEASE_PROJECTION"

abbrev pub engineering_stop : Text
engineering_stop = codes "ENGINEERING_STOP"

-- `_ADVISORY_EVENT_PRIORITY.get(kind)`
unfoldable pub advisory_event_priority : Text → Option ℤ
advisory_event_priority kind =
    if text_eq kind prewrite_authorization
    then some (pos 10)
    else if text_eq kind route_or_lease_projection
    then some (pos 20)
    else if text_eq kind engineering_stop
    then some (pos 40)
    else none

unfoldable pub external_authority_event_kinds : List Text
external_authority_event_kinds =
    codes "CHANGES_REQUIRED"
    ∷ codes "INDEPENDENT_ACCEPT"
    ∷ codes "CANONICAL_MERGE"
    ∷ codes "CLOSEOUT_RELEASED"
    ∷ codes "FROZEN_SUPERSEDED"
    ∷ []

-- `_KNOWN_EVENT_KINDS`
unfoldable pub known_event_kinds : List Text
unfolding external_authority_event_kinds
known_event_kinds =
    prewrite_authorization ∷ route_or_lease_projection ∷ engineering_stop
    ∷ external_authority_event_kinds

unfoldable pub required_event_identity_fields : List Text
required_event_identity_fields =
    codes "repository"
    ∷ codes "worker_slot_id"
    ∷ codes "task_id"
    ∷ codes "route_epoch"
    ∷ codes "issue"
    ∷ codes "pr"
    ∷ codes "exact_head"
    ∷ []

unfoldable pub review_authority_event_kinds : List Text
review_authority_event_kinds = codes "CHANGES_REQUIRED" ∷ codes "INDEPENDENT_ACCEPT" ∷ []

unfoldable pub review_provenance_fields : List Text
review_provenance_fields = codes "review_ref" ∷ codes "review_result_ref" ∷ []

unfoldable pub status_review_wait : List Text
status_review_wait =
    codes "ENGINEERING_STOPPED_WAITING_INDEPENDENT_REVIEW" ∷ codes "REVIEW_WAIT" ∷ []

unfoldable pub status_accepted : List Text
status_accepted =
    codes "INDEPENDENTLY_ACCEPTED_AWAITING_SEPARATE_CANONICALIZATION"
    ∷ codes "INDEPENDENTLY_ACCEPTED_AWAITING_CANONICALIZATION"
    ∷ []

unfoldable pub status_canonical_merged : List Text
status_canonical_merged = codes "CANONICAL_MERGED_AWAITING_CLOSEOUT" ∷ []

unfoldable pub status_changes_required : List Text
status_changes_required = codes "CHANGES_REQUIRED" ∷ []

unfoldable pub status_released : List Text
status_released =
    codes "RELEASED" ∷ codes "WORKER_CLOSED" ∷ codes "CANONICAL_MERGED_WORKER_CLOSED" ∷ []

unfoldable pub closure_released : List Text
closure_released = codes "RELEASED" ∷ codes "CANONICAL_MERGED_AND_WORKER_RELEASED" ∷ []

unfoldable pub status_frozen_exact : List Text
status_frozen_exact = codes "FROZEN" ∷ codes "SUPERSEDED" ∷ codes "GOVERNANCE_INVALID" ∷ []

unfoldable pub status_frozen_prefixes : List Text
status_frozen_prefixes = codes "FROZEN_" ∷ codes "SUPERSEDED_" ∷ codes "GOVERNANCE_INVALID_" ∷ []

unfoldable pub status_positive_current_execution : List Text
status_positive_current_execution =
    codes "ACTIVE" ∷ codes "ACTIVE_GOVERNED_EXECUTION" ∷ codes "ACTIVE_GOVERNED_PREWRITE" ∷ []

-- `_matches_projection_status` on a text.
unfoldable pub matches_projection_status : (Text → Text) → Text → List Text → List Text → Bool
matches_projection_status upper value exact_values prefixes =
    mem_text (upper value) exact_values || any (λ prefix. starts_with prefix (upper value)) prefixes

-- What a state says of a slot: the four results of `_state_semantics`.
pub record Semantics : Type 0 where
  pub executable : Bool
  pub occupies_capacity : Bool
  pub terminal : Bool
  pub current_write_authority : Bool

abbrev held : Bool → Semantics
held terminal = record {
  executable = false;
  occupies_capacity = true;
  terminal = terminal;
  current_write_authority = false;
}

abbrev over : Semantics
over = record {
  executable = false;
  occupies_capacity = false;
  terminal = true;
  current_write_authority = false;
}

unfoldable pub state_semantics : LifecycleState → Bool → Semantics
state_semantics LifecycleState.active execution_allowed = record {
  executable = execution_allowed;
  occupies_capacity = true;
  terminal = false;
  current_write_authority = execution_allowed;
}
state_semantics LifecycleState.changes_required execution_allowed = held true
state_semantics LifecycleState.released execution_allowed = over
state_semantics LifecycleState.frozen execution_allowed = over
state_semantics _ execution_allowed = held false
