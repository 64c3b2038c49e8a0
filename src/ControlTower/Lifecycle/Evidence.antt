-- ===== src/ControlTower/Lifecycle/Evidence.antt =====
-- worker_lifecycle.py: the evidence on a slot, as `resolve_worker_lifecycle` goes through it.
pub mod Strongest
pub mod Outcomes
use second_brain_coordinatio.Prelude.{
  Text, codes, Bool, true, false, Option, none, some, List, [], ◌∷◌, ◌++◌, ◌||◌, ◌&&◌, not,
  if◌then◌else◌, mem_text, text_eq,
}
use second_brain_coordinatio.Prelude.Int.{ℤ, negsuc}
use second_brain_coordinatio.Kernel.Canonical.Json.{Value}
use second_brain_coordinatio.ControlTower.Values.{
  Mapping, get, is_none, is_true, str_of, text_or_empty, or_else, text_lt, int_lt, canonical,
  obj_of,
}
use second_brain_coordinatio.ControlTower.Lifecycle.States.{
  LifecycleState, state_semantics, advisory_event_priority, external_authority_event_kinds,
  known_event_kinds, required_event_identity_fields, review_authority_event_kinds,
  review_provenance_fields, engineering_stop, prewrite_authorization, route_or_lease_projection,
}
use second_brain_coordinatio.ControlTower.Lifecycle.Projection.{Baseline, execution_allowed}

-- The first key is less than the second one, as tuples.
abbrev pub SortKey : Type 0
SortKey = ℤ × Text × Text

unfoldable pub key_lt : SortKey → SortKey → Bool
unfolding int_lt text_lt
key_lt (p, s, t) (q, u, v) =
    int_lt p q || not (int_lt q p) && (text_lt s u || not (text_lt u s) && text_lt t v)

unfoldable pub is_active_state : LifecycleState → Bool
is_active_state LifecycleState.active = true
is_active_state _ = false

unfoldable pub can_apply_advisory_transition : LifecycleState → LifecycleState → Bool → Bool
unfolding state_semantics
can_apply_advisory_transition baseline_state proposed_state execution_allowed =
    let baseline = state_semantics baseline_state execution_allowed in
    let proposed = state_semantics proposed_state execution_allowed in
    if proposed.executable && not baseline.executable
    then false
    else if baseline.occupies_capacity && not proposed.occupies_capacity
    then false
    else if baseline.terminal && not proposed.terminal
    then false
    else true

unfoldable pub advisory_state_from_event : Text → Mapping → Option LifecycleState
advisory_state_from_event kind event =
    if text_eq kind engineering_stop
    then some LifecycleState.review_wait
    else if text_eq kind prewrite_authorization || text_eq kind route_or_lease_projection
    then some (
        if is_true (get event (codes "execution_allowed"))
        then LifecycleState.active
        else LifecycleState.reserved)
    else none

-- What the loop over the evidence has gathered.
pub record Gathered : Type 0 where
  pub findings : List Text
  pub advisory_events : List Mapping

-- The state after the evidence, where it comes from and the findings so far.
pub record Outcome : Type 0 where
  pub state : LifecycleState
  pub source_kind : Text
  pub findings : List Text

module _ (repr : Value → Text) where
  -- `str(event.get("kind") or "")`
  unfoldable pub kind_of : Mapping → Text
  kind_of event = text_or_empty repr (get event (codes "kind"))

  -- The two mappings hold one value under the field, as texts.
  unfoldable pub same_field : Mapping → Mapping → Text → Bool
  same_field slot event field =
      let expected = get slot field in
      let actual = get event field in
      not (
        is_none expected
        || is_none actual
        || not (text_eq (str_of repr expected) (str_of repr actual)))

  -- The findings of a loop over fields, one for each that differs.
  unfoldable pub field_findings : Text → Mapping → Mapping → List Text → List Text
  field_findings prefix slot event [] = []
  field_findings prefix slot event (field ∷ fields) =
      let rest = field_findings prefix slot event fields in
      if same_field slot event field then rest else (prefix ++ field) ∷ rest

  unfoldable pub event_identity_findings : Mapping → Mapping → List Text
  event_identity_findings slot event =
      field_findings (codes "LIFECYCLE_EVIDENCE_IDENTITY_INVALID:") slot event
        required_event_identity_fields

  unfoldable pub review_provenance_findings : Mapping → Mapping → List Text
  review_provenance_findings slot event =
      if not (mem_text (kind_of event) review_authority_event_kinds)
      then []
      else field_findings (codes "LIFECYCLE_EVIDENCE_PROVENANCE_INVALID:") slot event
          review_provenance_fields

  unfoldable pub event_sort_key : Mapping → SortKey
  event_sort_key event = (
    elim (advisory_event_priority (kind_of event)) [ none ↦ negsuc 0 | some p ↦ p ],
    text_or_empty repr
        (or_else (get event (codes "observed_at")) (get event (codes "available_at"))),
    canonical (obj_of event),
  )

  -- One round of the loop over the evidence.
  unfoldable pub gather_event : Mapping → Gathered → Mapping → Gathered
  gather_event slot g event =
      let kind = kind_of event in
      let identity_findings = event_identity_findings slot event in
      let provenance_findings = review_provenance_findings slot event in
      if not (mem_text kind known_event_kinds)
      then record g {
        findings = g.findings ++ codes "UNKNOWN_LIFECYCLE_EVIDENCE_KIND_IGNORED" ∷ [];
      }
      else elim identity_findings [
        | f ∷ fs ↦ record g {
          findings =
              g.findings
              ++ (f ∷ fs)
              ++ codes "INCOMPLETE_OR_FOREIGN_LIFECYCLE_EVIDENCE_IGNORED" ∷ [];
        }
        | [] ↦ elim provenance_findings [
          | f ∷ fs ↦ record g {
            findings =
                g.findings
                ++ (f ∷ fs)
                ++ codes "UNVERIFIED_OR_FOREIGN_REVIEW_EVIDENCE_IGNORED" ∷ [];
          }
          | [] ↦
              if mem_text kind external_authority_event_kinds
              then record g {
                findings =
                    g.findings
                    ++ (codes "EXTERNAL_AUTHORITY_EVENT_REQUIRES_GOVERNED_PROJECTION:" ++ kind)
                      ∷ [];
              }
              else record g { advisory_events = g.advisory_events ++ event ∷ [] }
        ]
      ]

  unfoldable pub gather : Mapping → Gathered → List Mapping → Gathered
  gather slot g [] = g
  gather slot g (event ∷ events) = gather slot (gather_event slot g event) events

  -- `max(events, key=_event_sort_key)`, the first of the greatest.
  unfoldable pub strongest : Mapping → List Mapping → Mapping
  strongest best [] = best
  strongest best (event ∷ events) =
      strongest (if key_lt (event_sort_key best) (event_sort_key event) then event else best) events

  -- The branch on what the strongest event proposes.
  unfoldable pub apply_event : Baseline → Bool → Gathered → Mapping → Outcome
  apply_event baseline allowed g event = elim (advisory_state_from_event (kind_of event) event) [
    | none ↦ record {
      state = baseline.0;
      source_kind = codes "CANONICAL_AGGREGATE_PROJECTION";
      findings = g.findings ++ codes "UNRESOLVED_LIFECYCLE_EVIDENCE_FAIL_CLOSED" ∷ [];
    }
    | some proposed ↦
        if can_apply_advisory_transition baseline.0 proposed allowed
        then record {
          state = proposed;
          source_kind = codes "ADVISORY_" ++ kind_of event;
          findings =
              g.findings
              ++ (if not (is_active_state proposed) && allowed
                  then codes "STALE_EXECUTION_FLAG_IGNORED_BY_STRONGER_EVIDENCE" ∷ []
                  else []);
        }
        else record {
          state = baseline.0;
          source_kind = codes "CANONICAL_AGGREGATE_PROJECTION";
          findings = g.findings ++ codes "ADVISORY_EVENT_AUTHORITY_ESCALATION_BLOCKED" ∷ [];
        }
  ]

  unfoldable pub outcome_of : Baseline → Bool → Gathered → Outcome
  outcome_of baseline allowed g = elim g.advisory_events [
    | [] ↦ record {
      state = baseline.0;
      source_kind = codes "CANONICAL_AGGREGATE_PROJECTION";
      findings = g.findings;
    }
    | event ∷ events ↦ apply_event baseline allowed g (strongest event events)
  ]
