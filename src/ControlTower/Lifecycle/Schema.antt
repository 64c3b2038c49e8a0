-- ===== src/ControlTower/Lifecycle/Schema.antt =====
-- worker_lifecycle.py: the audit of the registry as data, the checks of its schema version and of
-- the capacity limit, and the payload under its fingerprint.
use second_brain_coordinatio.Prelude.{
  ℕ, Text, codes, Bool, true, false, Option, none, some, List, [], ◌∷◌, if◌then◌else◌, text_eq, leb,
  ltb, length, Result, ok, err, map,
}
use second_brain_coordinatio.Prelude.Int.{pos}
use second_brain_coordinatio.Kernel.Canonical.Json.{Value, null, bool, int, str, arr, obj}
use second_brain_coordinatio.ControlTower.Values.{
  Mapping, get, mapping_of, list_of, items_of, obj_of, texts_value,
}
use second_brain_coordinatio.ControlTower.Lifecycle.States.{LifecycleState}
use second_brain_coordinatio.ControlTower.Lifecycle.Resolution.{
  WorkerLifecycleResolution, resolution_payload,
}

-- `version in frozenset(...)` with a version that has no hash.
pub data TypeError : Type 0 where
  unhashable : TypeError

abbrev pub legacy_compatibility : Text
legacy_compatibility = codes "WORKER_REGISTRY_LEGACY_SCHEMA_COMPATIBILITY"

unfoldable pub registry_schema_findings : Value → Result TypeError (List Text)
registry_schema_findings (str s) =
    if text_eq s (codes "1.5")
    then ok []
    else if text_eq s (codes "1.0")
    then ok (legacy_compatibility ∷ [])
    else ok (codes "WORKER_REGISTRY_SCHEMA_UNSUPPORTED_FAIL_CLOSED" ∷ [])
registry_schema_findings (arr xs) = err unhashable
registry_schema_findings (obj fs) = err unhashable
registry_schema_findings _ = ok (codes "WORKER_REGISTRY_SCHEMA_UNSUPPORTED_FAIL_CLOSED" ∷ [])

-- A positive integer that is no bool.
unfoldable pub positive_of : Value → Option ℕ
positive_of (int (pos n)) = if leb 1 n then some n else none
positive_of _ = none

-- `policy.get(...) if isinstance(policy, dict) else None`
unfoldable pub candidate_of : Option Mapping → Value
unfolding get
candidate_of none = null
candidate_of (some policy) = get policy (codes "gpt_engineering_worker_active_slots_max")

-- The program file: none if it cannot be read or is no mapping.
unfoldable pub capacity_limit_from_program : Option Mapping → Option ℕ × List Text
unfolding get mapping_of candidate_of positive_of
capacity_limit_from_program none = (none, codes "PROGRAM_LANES_CAPACITY_UNREADABLE" ∷ [])
capacity_limit_from_program (some program) =
    elim (positive_of
      (candidate_of (mapping_of (get program (codes "portfolio_capacity_policy"))))) [
        | some limit ↦ (some limit, [])
        | none ↦ (none, codes "GPT_WORKER_CAPACITY_LIMIT_UNKNOWN" ∷ [])
      ]

pub record WorkerRegistryLifecycleAudit : Type 0 where
  pub schema_version : Option Text
  pub registry_id : Value
  pub agent_type : Value
  pub slot_resolutions : List (Text × WorkerLifecycleResolution)
  pub occupied_capacity_slots : List Text
  pub occupied_capacity_count : Option ℕ
  pub configured_capacity_limit : Option ℕ
  pub free_capacity_count : Option ℕ
  pub capacity_state : Text
  pub findings : List Text
  pub valid_for_observability : Bool
  pub fingerprint : Text

abbrev pub known_observation : Text
known_observation = codes "KNOWN_OBSERVATION"

abbrev pub unknown_fail_closed : Text
unknown_fail_closed = codes "UNKNOWN_FAIL_CLOSED"

optional_number : Option ℕ → Value
optional_number none = null
optional_number (some n) = int (pos n)

optional_text : Option Text → Value
optional_text none = null
optional_text (some t) = str t

-- `{"worker_slot_id": slot_id, **resolution.to_dict()}`
slot_value : Text × WorkerLifecycleResolution → Value
unfolding obj_of resolution_payload
slot_value (slot_id, r) = obj_of (
    (codes "worker_slot_id", str slot_id)
    ∷ (codes "fingerprint", str r.fingerprint)
    ∷ resolution_payload r)

unfoldable pub audit_payload : WorkerRegistryLifecycleAudit → Mapping
unfolding optional_number optional_text slot_value texts_value items_of
audit_payload a =
    (codes "schema_version", optional_text a.schema_version)
    ∷ (codes "registry_id", a.registry_id)
    ∷ (codes "agent_type", a.agent_type)
    ∷ (codes "slot_resolutions", arr (items_of (map slot_value a.slot_resolutions)))
    ∷ (codes "occupied_capacity_slots", texts_value a.occupied_capacity_slots)
    ∷ (codes "occupied_capacity_count", optional_number a.occupied_capacity_count)
    ∷ (codes "configured_capacity_limit", optional_number a.configured_capacity_limit)
    ∷ (codes "free_capacity_count", optional_number a.free_capacity_count)
    ∷ (codes "capacity_state", str a.capacity_state)
    ∷ (codes "findings", texts_value a.findings)
    ∷ (codes "valid_for_observability", bool a.valid_for_observability)
    ∷ (codes "successor_release_authority", bool false)
    ∷ []

-- The variables of the loop over the slots.
pub record Audit : Type 0 where
  pub findings : List Text
  pub slot_resolutions : List (Text × WorkerLifecycleResolution)
  pub occupied : List Text
  pub seen : List Text

unfoldable pub is_unknown : LifecycleState → Bool
is_unknown LifecycleState.unknown = true
is_unknown _ = false

abbrev pub raise_finding : Bool → Text → List Text
raise_finding test code = if test then code ∷ [] else []

-- `capacity_limit is not None and len(occupied) > capacity_limit`
unfoldable pub exceeds : Option ℕ → List Text → Bool
exceeds none occupied = false
exceeds (some limit) occupied = ltb limit (length occupied)

-- `registry.get("worker_slots")`, if it is a list.
unfoldable pub slots_of : Mapping → Option (List Value)
unfolding get list_of
slots_of registry = elim (get registry (codes "worker_slots")) [
  | arr xs ↦ some (list_of xs)
  | _ ↦ none
]

unfoldable pub is_empty : List Text → Bool
is_empty [] = true
is_empty (t ∷ ts) = false
