-- ===== src/ControlTower/Lifecycle/Resolution.antt =====
-- worker_lifecycle.py: `resolve_worker_lifecycle`, from the projection of a slot and evidence.
pub mod Authority
pub mod Executable
use second_brain_coordinatio.Prelude.{
  ℕ, ◌+◌, Text, codes, Bool, false, Option, none, some, List, [], ◌∷◌, ◌++◌, ◌&&◌, not,
  if◌then◌else◌, Dict, lookup,
}
use second_brain_coordinatio.Kernel.Canonical.Json.{Value, null, bool, str}
use second_brain_coordinatio.ControlTower.Values.{
  Mapping, get, is_none, str_of, text_or_empty, sorted_set, canonical, texts_value, obj_of,
}
use second_brain_coordinatio.ControlTower.Lifecycle.States.{
  LifecycleState, state_text, state_semantics,
}
use second_brain_coordinatio.ControlTower.Lifecycle.Projection.{
  execution_allowed, baseline_from_projection,
}
use second_brain_coordinatio.ControlTower.Lifecycle.Evidence.{
  Outcome, is_active_state, gather, outcome_of,
}

pub record WorkerLifecycleResolution : Type 0 where
  pub lifecycle_state : LifecycleState
  pub executable : Bool
  pub occupies_capacity : Bool
  pub terminal : Bool
  pub current_write_authority : Bool
  pub source_kind : Text
  pub exact_head : Option Text
  pub findings : List Text
  pub fingerprint : Text

-- The payload over which the fingerprint is taken; the four authorities are always False.
unfoldable pub resolution_payload : WorkerLifecycleResolution → Mapping
unfolding texts_value state_text
resolution_payload r =
    (codes "schema_version", str (codes "WorkerLifecycleResolution/v1"))
    ∷ (codes "lifecycle_state", str (state_text r.lifecycle_state))
    ∷ (codes "executable", bool r.executable)
    ∷ (codes "occupies_capacity", bool r.occupies_capacity)
    ∷ (codes "terminal", bool r.terminal)
    ∷ (codes "current_write_authority", bool r.current_write_authority)
    ∷ (codes "source_kind", str r.source_kind)
    ∷ (codes "exact_head", elim r.exact_head [ none ↦ null | some h ↦ str h ])
    ∷ (codes "findings", texts_value r.findings)
    ∷ (codes "acceptance_authority", bool false)
    ∷ (codes "merge_authority", bool false)
    ∷ (codes "trade_authority", bool false)
    ∷ (codes "successor_release_authority", bool false)
    ∷ []

module _ (repr : Value → Text) where
  -- `evidence_by_slot.get(slot_id, ())`
  unfoldable pub evidence_of : Dict (List Mapping) → Mapping → List Mapping
  evidence_of evidence_by_slot slot =
      elim (lookup (text_or_empty repr (get slot (codes "worker_slot_id"))) evidence_by_slot) [
        | none ↦ []
        | some events ↦ events
      ]

  module _ (sha256 : Text → Text) where
    -- The end of `resolve_worker_lifecycle`, from the meaning of the state on.
    unfoldable pub resolution_of : Mapping → Bool → Outcome → WorkerLifecycleResolution
    resolution_of slot allowed o =
        let semantics = state_semantics o.state allowed in
        let missing = is_active_state o.state && not allowed in
        let exact_head = get slot (codes "exact_head") in
        let unsigned : WorkerLifecycleResolution = record {
          lifecycle_state = o.state;
          executable = if missing then false else semantics.executable;
          occupies_capacity = semantics.occupies_capacity;
          terminal = semantics.terminal;
          current_write_authority = if missing then false else semantics.current_write_authority;
          source_kind = o.source_kind;
          exact_head = if is_none exact_head then none else some (str_of repr exact_head);
          findings = sorted_set (
              o.findings
              ++ (if missing then codes "ACTIVE_EXECUTION_PREREQUISITE_MISSING" ∷ [] else []));
          fingerprint = [];
        } in
        record unsigned { fingerprint = sha256 (canonical (obj_of (resolution_payload unsigned))) }

module _ (upper : Text → Text) (repr : Value → Text) (sha256 : Text → Text) where
  unfoldable pub resolve_worker_lifecycle : Mapping → List Mapping → WorkerLifecycleResolution
  resolve_worker_lifecycle slot evidence_events =
      let baseline = baseline_from_projection upper repr slot in
      let allowed = execution_allowed slot in
      let gathered =
        gather repr slot (record { findings = baseline.1; advisory_events = [] }) evidence_events in
      resolution_of repr sha256 slot allowed (outcome_of repr baseline allowed gathered)

  unfoldable pub occupied_capacity_count : List Mapping → Dict (List Mapping) → ℕ
  occupied_capacity_count [] evidence_by_slot = 0
  occupied_capacity_count (slot ∷ slots) evidence_by_slot =
      let resolution = resolve_worker_lifecycle slot (evidence_of repr evidence_by_slot slot) in
      (if resolution.occupies_capacity then 1 else 0)
      + occupied_capacity_count slots evidence_by_slot
