-- ===== src/ControlTower/Lifecycle/Registry.antt =====
-- worker_lifecycle.py: `audit_worker_registry_lifecycle`, on the files as `yaml.safe_load` reads
-- them.
pub mod Distinct
pub mod Bounds
use second_brain_coordinatio.Prelude.{
  ℕ, suc, ◌-◌, Text, codes, false, Option, none, some, List, [], ◌∷◌, ◌++◌, ◌&&◌, not,
  if◌then◌else◌, mem_text, text_eq, length, select, is_some, Result, ok, ◌>>=◌,
}
use second_brain_coordinatio.Kernel.Canonical.Json.{Value, null}
use second_brain_coordinatio.ControlTower.Values.{
  Mapping, get, is_none, is_text, mapping_of, str_of, text_or_empty, number_text, sorted_set,
  canonical, obj_of,
}
use second_brain_coordinatio.ControlTower.Lifecycle.Resolution.{
  WorkerLifecycleResolution, resolve_worker_lifecycle,
}
use second_brain_coordinatio.ControlTower.Lifecycle.Schema.{
  TypeError, legacy_compatibility, registry_schema_findings, capacity_limit_from_program,
  WorkerRegistryLifecycleAudit, known_observation, unknown_fail_closed, audit_payload, Audit,
  is_unknown, raise_finding, exceeds, slots_of, is_empty,
}

-- The round of the loop from the test for a repeated id on; the finding on a missing id comes first.
unfoldable pub add_slot : List Text → Text → WorkerLifecycleResolution → Audit → Audit
add_slot missing slot_id resolution a = record {
  findings =
      a.findings
      ++ missing
      ++ raise_finding (mem_text slot_id a.seen) (codes "WORKER_SLOT_ID_DUPLICATE:" ++ slot_id)
      ++ raise_finding (is_unknown resolution.lifecycle_state)
          (codes "WORKER_SLOT_LIFECYCLE_UNKNOWN:" ++ slot_id);
  slot_resolutions = a.slot_resolutions ++ (slot_id, resolution) ∷ [];
  occupied = a.occupied ++ (if resolution.occupies_capacity then slot_id ∷ [] else []);
  seen = slot_id ∷ a.seen;
}

-- The findings on the two names that the registry gives itself.
unfoldable pub identity_findings : Mapping → List Text
identity_findings registry =
    raise_finding
      (not (
        is_text (codes "ACTIVE-GPT-ENGINEERING-WORKERS-0001") (get registry (codes "registry_id"))))
      (codes "WORKER_REGISTRY_ID_INVALID")
    ++ raise_finding
        (not (is_text (codes "GPT_ENGINEERING_WORKER") (get registry (codes "agent_type"))))
        (codes "WORKER_REGISTRY_AGENT_TYPE_INVALID")

module _ (upper : Text → Text) (repr : Value → Text) (sha256 : Text → Text) where
  unfoldable pub sign : WorkerRegistryLifecycleAudit → WorkerRegistryLifecycleAudit
  sign a = record a { fingerprint = sha256 (canonical (obj_of (audit_payload a))) }

  unfoldable pub failed_audit : Option ℕ → List Text → WorkerRegistryLifecycleAudit
  failed_audit capacity_limit findings = sign (record {
    schema_version = none;
    registry_id = null;
    agent_type = null;
    slot_resolutions = [];
    occupied_capacity_slots = [];
    occupied_capacity_count = none;
    configured_capacity_limit = capacity_limit;
    free_capacity_count = none;
    capacity_state = unknown_fail_closed;
    findings = sorted_set findings;
    valid_for_observability = false;
    fingerprint = [];
  })

  -- One round of the loop for a slot that is a mapping.
  unfoldable pub audit_slot : ℕ → Mapping → Audit → Audit
  audit_slot index raw a =
      let given = text_or_empty repr (get raw (codes "worker_slot_id")) in
      add_slot
        (raise_finding (text_eq given []) (codes "WORKER_SLOT_ID_MISSING:" ++ number_text index))
        (if text_eq given [] then codes "UNKNOWN:" ++ number_text index else given)
        (resolve_worker_lifecycle upper repr sha256 raw []) a

  -- One round of the loop.
  unfoldable pub audit_raw : ℕ → Value → Audit → Audit
  audit_raw index raw a = elim (mapping_of raw) [
    | none ↦ record a {
      findings = a.findings ++ (codes "WORKER_SLOT_NOT_MAPPING:" ++ number_text index) ∷ [];
    }
    | some slot ↦ audit_slot index slot a
  ]

  unfoldable pub audit_slots : ℕ → List Value → Audit → Audit
  audit_slots index [] a = a
  audit_slots index (raw ∷ raws) a = audit_slots (suc index) raws (audit_raw index raw a)

  -- The end of the audit, from the test of the capacity on.
  unfoldable pub close_audit : Mapping → Option ℕ → Audit → WorkerRegistryLifecycleAudit
  close_audit registry capacity_limit a =
      let version = get registry (codes "schema_version") in
      let findings =
        a.findings
        ++ raise_finding (exceeds capacity_limit a.occupied)
            (codes "GPT_WORKER_OCCUPIED_CAPACITY_EXCEEDED") in
      let error_findings = select (λ item. not (text_eq item legacy_compatibility)) findings in
      let valid = is_empty error_findings in
      sign (record {
        schema_version = if is_none version then none else some (str_of repr version);
        registry_id = get registry (codes "registry_id");
        agent_type = get registry (codes "agent_type");
        slot_resolutions = a.slot_resolutions;
        occupied_capacity_slots = a.occupied;
        occupied_capacity_count = some (length a.occupied);
        configured_capacity_limit = capacity_limit;
        free_capacity_count = elim capacity_limit [
          | none ↦ none
          | some limit ↦ if valid then some (limit - length a.occupied) else none
        ];
        capacity_state =
            if valid && is_some capacity_limit then known_observation else unknown_fail_closed;
        findings = sorted_set findings;
        valid_for_observability = valid;
        fingerprint = [];
      })

  -- The audit from the list of slots on, none if there is none.
  unfoldable pub audit_list :
      Mapping → Option ℕ → List Text → Option (List Value) → WorkerRegistryLifecycleAudit
  audit_list registry capacity_limit findings none =
      failed_audit capacity_limit
        (findings ++ codes "WORKER_REGISTRY_SLOTS_NOT_LIST_FAIL_CLOSED" ∷ [])
  audit_list registry capacity_limit findings (some raw_slots) =
      close_audit registry capacity_limit (
        audit_slots 0 raw_slots
          (record { findings = findings; slot_resolutions = []; occupied = []; seen = [] }))

  -- The two files, each none if it cannot be read or is no mapping.
  unfoldable pub audit_worker_registry_lifecycle :
      Option Mapping → Option Mapping → Result TypeError WorkerRegistryLifecycleAudit
  audit_worker_registry_lifecycle program none =
      let capacity = capacity_limit_from_program program in
      ok (
        failed_audit capacity.0 (capacity.1 ++ codes "WORKER_REGISTRY_UNREADABLE_FAIL_CLOSED" ∷ []))
  audit_worker_registry_lifecycle program (some registry) =
      let capacity = capacity_limit_from_program program in
      do
        schema_findings ← registry_schema_findings (get registry (codes "schema_version"))
        ok (
            audit_list registry capacity.0
              (capacity.1 ++ schema_findings ++ identity_findings registry) (slots_of registry))
