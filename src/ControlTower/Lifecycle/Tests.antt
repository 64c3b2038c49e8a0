-- ===== src/ControlTower/Lifecycle/Tests.antt =====
-- A worker slot in progress, evidence on it, and a registry of two slots.
use second_brain_coordinatio.Prelude.{
  ◌-◌, Text, codes, true, false, some, List, [], ◌∷◌, ◌≡◌, ◌↔◌, refl, map, leb, ◌&&◌, if◌then◌else◌,
  Dict, lookup, err, Result,
}
use second_brain_coordinatio.Prelude.Int.{pos}
use second_brain_coordinatio.Kernel.Canonical.Json.{
  Value, bool, int, str, arr, nil, jcs_number, emit, text_le, insert_item, sort_items, escape_char,
  jcs_escape, hex_digit, quoted, join_fields, join_items, jcs_dumps, dumps_items, dumps_fields,
}
use second_brain_coordinatio.ControlTower.Values.{
  list_of, dict_of, mapping_of, number_text, is_text, Mapping, get, truthy, is_none, is_true,
  or_else, fields_of, obj_of, items_of, texts_value, str_of, text_or_empty, text_lt, int_lt,
  insert_text, sorted_set, canonical,
}
use second_brain_coordinatio.ControlTower.Lifecycle.States.{
  LifecycleState, state_text, advisory_event_priority, external_authority_event_kinds,
  known_event_kinds, required_event_identity_fields, review_authority_event_kinds,
  review_provenance_fields, status_review_wait, status_accepted, status_canonical_merged,
  status_changes_required, status_released, closure_released, status_frozen_exact,
  status_frozen_prefixes, status_positive_current_execution, matches_projection_status,
  state_semantics,
}
use second_brain_coordinatio.ControlTower.Lifecycle.Projection.{
  execution_allowed, finding, with_summary, settle, ignoring_flag, upper_field, conflicts,
  terminal_projection_conflict_findings, terminal_or_unknown, legacy_baseline, activation_baseline,
  status_baseline, baseline_from_projection,
}
use second_brain_coordinatio.ControlTower.Lifecycle.Evidence.{
  key_lt, is_active_state, can_apply_advisory_transition, advisory_state_from_event, kind_of,
  same_field, field_findings, event_identity_findings, review_provenance_findings, event_sort_key,
  gather_event, gather, strongest, apply_event, outcome_of,
}
use second_brain_coordinatio.ControlTower.Lifecycle.Resolution.{
  occupied_capacity_count, evidence_of, resolution_payload, resolution_of, resolve_worker_lifecycle,
}
use second_brain_coordinatio.ControlTower.Lifecycle.Projection.InProgress.{IsInProgress}
use second_brain_coordinatio.ControlTower.Lifecycle.Resolution.Authority.{
  resolve-stops, occupied_capacity_count-evidence,
}
use second_brain_coordinatio.ControlTower.Lifecycle.Resolution.Executable.{
  resolve-executable_iff, resolve-writes,
}
use second_brain_coordinatio.ControlTower.Lifecycle.Schema.{
  TypeError, WorkerRegistryLifecycleAudit, slots_of, is_unknown, exceeds, is_empty, audit_payload,
  capacity_limit_from_program, candidate_of, positive_of, registry_schema_findings,
}
use second_brain_coordinatio.ControlTower.Lifecycle.Registry.{
  audit_worker_registry_lifecycle, audit_list, audit_slots, audit_raw, audit_slot, add_slot,
  close_audit, sign, identity_findings, failed_audit,
}
use second_brain_coordinatio.ControlTower.Lifecycle.Registry.Bounds.{Accounts, audit-Accounts}

-- `str.upper` on ASCII, and stand-ins for `repr` and the hash.
abbrev ascii_upper : Text → Text
ascii_upper = map (λ c. if leb b'a' c && leb c b'z' then c - 32 else c)

abbrev blank : Value → Text
blank v = []

abbrev same : Text → Text
same t = t

abbrev identity : Text → Mapping
identity slot_id =
    (codes "repository", str (codes "r"))
    ∷ (codes "worker_slot_id", str slot_id)
    ∷ (codes "task_id", str (codes "T-1"))
    ∷ (codes "route_epoch", int (pos 3))
    ∷ (codes "issue", int (pos 7))
    ∷ (codes "pr", int (pos 8))
    ∷ (codes "exact_head", str (codes "abc"))
    ∷ []

abbrev working : Mapping
working =
    (codes "activation_state", str (codes "active"))
    ∷ (codes "status", str (codes "ACTIVE_GOVERNED_EXECUTION"))
    ∷ (codes "execution_allowed", bool true)
    ∷ identity (codes "W1")

abbrev finished : Mapping
finished = (codes "closure_state", str (codes "released")) ∷ identity (codes "W2")

abbrev stop_event : Mapping
stop_event = (codes "kind", str (codes "ENGINEERING_STOP")) ∷ identity (codes "W1")

abbrev start_event : Mapping
start_event =
    (codes "kind", str (codes "PREWRITE_AUTHORIZATION"))
    ∷ (codes "execution_allowed", bool true)
    ∷ identity (codes "W1")

resolved : Mapping → List Mapping → LifecycleState
unfolding lookup jcs_number emit text_le insert_item sort_items escape_char jcs_escape hex_digit
    quoted join_fields join_items jcs_dumps dumps_items dumps_fields get truthy is_none is_true
    or_else fields_of obj_of items_of texts_value str_of text_or_empty text_lt int_lt insert_text
    sorted_set canonical state_text advisory_event_priority external_authority_event_kinds
    known_event_kinds required_event_identity_fields review_authority_event_kinds
    review_provenance_fields status_review_wait status_accepted status_canonical_merged
    status_changes_required status_released closure_released status_frozen_exact
    status_frozen_prefixes status_positive_current_execution matches_projection_status
    state_semantics execution_allowed finding with_summary settle ignoring_flag upper_field
    conflicts terminal_projection_conflict_findings terminal_or_unknown legacy_baseline
    activation_baseline status_baseline baseline_from_projection key_lt is_active_state
    can_apply_advisory_transition advisory_state_from_event kind_of same_field field_findings
    event_identity_findings review_provenance_findings event_sort_key gather_event gather strongest
    apply_event outcome_of resolution_payload resolution_of resolve_worker_lifecycle
resolved slot events = (resolve_worker_lifecycle ascii_upper blank same slot events).lifecycle_state

working_is_active : resolved working (start_event ∷ []) ≡ LifecycleState.active
unfolding resolved
working_is_active = refl

working_is_stopped :
    resolved working (start_event ∷ stop_event ∷ start_event ∷ []) ≡ LifecycleState.review_wait
unfolding resolved
working_is_stopped = refl

finished_stays : resolved finished (start_event ∷ []) ≡ LifecycleState.released
unfolding resolved
finished_stays = refl

foreign_is_ignored :
    resolved working (((codes "kind", str (codes "ENGINEERING_STOP")) ∷ identity (codes "W2")) ∷ [])
    ≡ LifecycleState.active
unfolding resolved
foreign_is_ignored = refl

-- A slot that was released and still may execute contradicts itself.
contradiction_is_unknown :
    resolved ((codes "closure_state", str (codes "released")) ∷ working) [] ≡ LifecycleState.unknown
unfolding resolved
contradiction_is_unknown = refl

resolve-stops_example :
    ((resolve_worker_lifecycle ascii_upper blank same working
        (start_event ∷ stop_event ∷ start_event ∷ [])).executable
      ≡ false)
    × ((resolve_worker_lifecycle ascii_upper blank same working
          (start_event ∷ stop_event ∷ start_event ∷ [])).current_write_authority
        ≡ false)
unfolding resolved
resolve-stops_example =
    resolve-stops ascii_upper blank same working (start_event ∷ []) stop_event (start_event ∷ [])
      refl refl

resolve-executable_iff_example :
    ((resolve_worker_lifecycle ascii_upper blank same working []).executable ≡ true)
    ↔ IsInProgress ascii_upper blank working
resolve-executable_iff_example = resolve-executable_iff ascii_upper blank same working

resolve-writes_example :
    ((resolve_worker_lifecycle ascii_upper blank same working []).executable ≡ true)
    × IsInProgress ascii_upper blank working
unfolding resolved
resolve-writes_example = resolve-writes ascii_upper blank same working (start_event ∷ []) refl

abbrev evidence : Dict (List Mapping)
evidence = (codes "W1", stop_event ∷ []) ∷ []

occupied_capacity_count-evidence_example :
    occupied_capacity_count ascii_upper blank same (working ∷ finished ∷ []) evidence
    ≡ occupied_capacity_count ascii_upper blank same (working ∷ finished ∷ []) []
occupied_capacity_count-evidence_example =
    occupied_capacity_count-evidence ascii_upper blank same (working ∷ finished ∷ []) evidence

occupied_once :
    occupied_capacity_count ascii_upper blank same (working ∷ finished ∷ []) evidence ≡ 1
unfolding resolved occupied_capacity_count evidence_of
occupied_once = refl

abbrev program : Mapping
program =
    (
      codes "portfolio_capacity_policy",
      obj_of ((codes "gpt_engineering_worker_active_slots_max", int (pos 2)) ∷ []),
    )
    ∷ []

abbrev registry : Mapping
registry =
    (codes "schema_version", str (codes "1.5"))
    ∷ (codes "registry_id", str (codes "ACTIVE-GPT-ENGINEERING-WORKERS-0001"))
    ∷ (codes "agent_type", str (codes "GPT_ENGINEERING_WORKER"))
    ∷ (codes "worker_slots", arr (items_of (obj_of working ∷ obj_of finished ∷ [])))
    ∷ []

audited : Mapping → Result TypeError WorkerRegistryLifecycleAudit
unfolding audit_worker_registry_lifecycle audit_list slots_of list_of audit_slots audit_raw
    audit_slot add_slot mapping_of dict_of is_unknown number_text close_audit exceeds is_empty sign
    audit_payload identity_findings is_text failed_audit capacity_limit_from_program candidate_of
    positive_of registry_schema_findings
audited = λ m. audit_worker_registry_lifecycle ascii_upper blank same (some program) (some m)

abbrev sample_audit : WorkerRegistryLifecycleAudit
sample_audit = audit_list ascii_upper blank same registry (some 2) [] (slots_of registry)

-- Two slots, of which one occupies capacity, under a limit of two.
audit-Accounts_example : Accounts sample_audit
unfolding resolved audited
audit-Accounts_example =
    audit-Accounts ascii_upper blank same (some program) (some registry) refl refl

audited_free : sample_audit.free_capacity_count ≡ some 1
unfolding resolved audited
audited_free = refl

-- A version that is a list has no hash.
unhashable_version :
    audited ((codes "schema_version", arr nil) ∷ registry) ≡ err TypeError.unhashable
unfolding resolved audited
unhashable_version = refl
