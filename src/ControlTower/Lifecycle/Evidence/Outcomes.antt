-- ===== src/ControlTower/Lifecycle/Evidence/Outcomes.antt =====
-- What the evidence can do to the state of a slot: a stop ends its execution, and nothing raises
-- its authority or frees its capacity.
use mathlib.Core.Path.{subst}
use second_brain_coordinatio.Prelude.{
  sym, Text, codes, Bool, true, false, some, List, [], ◌∷◌, ◌++◌, ◌≡◌, refl, arith, Bool-cases,
  Option-cases, inl, inr, text_eq, text_eq_sound, mem_text, not, ◌&&◌, select, append_assoc,
  append-nil, if◌then◌else◌,
}
use second_brain_coordinatio.Kernel.Canonical.Json.{Value}
use second_brain_coordinatio.ControlTower.Values.{Mapping, get, is_true}
use second_brain_coordinatio.ControlTower.Lifecycle.States.{
  LifecycleState, Semantics, state_semantics, engineering_stop, known_event_kinds,
  external_authority_event_kinds, review_authority_event_kinds,
}
use second_brain_coordinatio.ControlTower.Lifecycle.Projection.{Baseline}
use second_brain_coordinatio.ControlTower.Lifecycle.Evidence.{
  Gathered, kind_of, event_identity_findings, review_provenance_findings, gather_event, gather,
  strongest, can_apply_advisory_transition, advisory_state_from_event, apply_event, outcome_of,
}
use second_brain_coordinatio.ControlTower.Lifecycle.Evidence.Strongest.{
  IsStop, strongest-IsStop, strongest_first-IsStop,
}

is_empty : List Text → Bool
is_empty [] = true
is_empty (t ∷ ts) = false

-- The second meaning grants no more than the first one and holds on to as much.
pub record Within (before after : Semantics) : Type 0 where
  pub occupies : after.occupies_capacity ≡ before.occupies_capacity
  pub ends : after.terminal ≡ before.terminal
  pub executes : after.executable ≡ true → before.executable ≡ true
  pub writes : after.current_write_authority ≡ true → before.current_write_authority ≡ true

Within-refl : (s : Semantics) → Within s s
Within-refl s = record { occupies = refl; ends = refl; executes = λ h. h; writes = λ h. h }

-- The states that evidence can propose.
data Proposed : LifecycleState → Type 0 where
  stop : Proposed LifecycleState.review_wait
  start : Proposed LifecycleState.active
  reserve : Proposed LifecycleState.reserved

can_apply-Within :
    (baseline : LifecycleState) {proposed : LifecycleState} (allowed : Bool)
    → Proposed proposed
    → can_apply_advisory_transition baseline proposed allowed ≡ true
    → Within (state_semantics baseline allowed) (state_semantics proposed allowed)
unfolding can_apply_advisory_transition state_semantics
can_apply-Within _ allowed stop h = record {
  occupies = ground arith;
  ends = ground arith;
  executes = λ e. ground arith;
  writes = λ e. ground arith;
}
can_apply-Within _ allowed start h = record {
  occupies = ground arith;
  ends = ground arith;
  executes = λ e. ground arith;
  writes = λ e. ground arith;
}
can_apply-Within _ allowed reserve h = record {
  occupies = ground arith;
  ends = ground arith;
  executes = λ e. ground arith;
  writes = λ e. ground arith;
}

Proposed-start :
    (allowed : Bool) → Proposed (if allowed then LifecycleState.active else LifecycleState.reserved)
Proposed-start true = start
Proposed-start false = reserve

advisory-Proposed :
    (kind : Text) (event : Mapping) {proposed : LifecycleState}
    → advisory_state_from_event kind event ≡ some proposed
    → Proposed proposed
unfolding advisory_state_from_event
advisory-Proposed kind event {proposed} h = elim (Bool-cases (text_eq kind engineering_stop)) [
  | inl e ↦
      let same : LifecycleState.review_wait ≡ proposed = ground arith in subst Proposed same stop
  | inr e ↦
      let chosen : (if is_true (get event (codes "execution_allowed"))
            then LifecycleState.active
            else LifecycleState.reserved)
          ≡ proposed =
        ground arith in
      subst Proposed chosen (Proposed-start (is_true (get event (codes "execution_allowed"))))
]

-- A stop is blocked only where there is nothing to execute.
blocked_stop :
    (baseline : LifecycleState) (allowed : Bool)
    → can_apply_advisory_transition baseline LifecycleState.review_wait allowed ≡ false
    → (state_semantics baseline allowed).executable ≡ false
unfolding can_apply_advisory_transition state_semantics
blocked_stop LifecycleState.active allowed h = cc
blocked_stop _ allowed h = ground arith

module _ (repr : Value → Text) where
  apply_event-Within :
      (baseline : Baseline) (allowed : Bool) (g : Gathered) (event : Mapping)
      → Within
          (state_semantics baseline.0 allowed)
          (state_semantics (apply_event repr baseline allowed g event).state allowed)
  unfolding apply_event
  apply_event-Within baseline allowed g event =
      elim (Option-cases (advisory_state_from_event (kind_of repr event) event)) [
        | inl e ↦ rw (e, apply_event) (Within-refl _)
        | inr (proposed, e) ↦
            elim (Bool-cases (can_apply_advisory_transition baseline.0 proposed allowed)) [
              | inl c ↦
                  rw (e, apply_event, c)
                    (can_apply-Within baseline.0 allowed (advisory-Proposed _ event e) c)
              | inr c ↦ rw (e, apply_event, c) (Within-refl _)
            ]
      ]

  -- A stop that is applied, and one that is not, leave nothing to execute.
  apply_event-stop :
      (baseline : Baseline) (allowed : Bool) (g : Gathered) (event : Mapping)
      → IsStop repr event
      → (state_semantics (apply_event repr baseline allowed g event).state allowed).executable
        ≡ false
  unfolding apply_event advisory_state_from_event state_semantics
  apply_event-stop baseline allowed g event h =
      elim (Bool-cases
        (can_apply_advisory_transition baseline.0 LifecycleState.review_wait allowed)) [
          | inl c ↦ rw (h, apply_event, advisory_state_from_event, c) refl
          | inr c ↦
              rw (h, apply_event, advisory_state_from_event, c) (blocked_stop baseline.0 allowed c)
        ]

  -- The event passes every test of the loop.
  pub counts : Mapping → Mapping → Bool
  counts slot event =
      mem_text (kind_of repr event) known_event_kinds
      && is_empty (event_identity_findings repr slot event)
      && is_empty (review_provenance_findings repr slot event)
      && not (mem_text (kind_of repr event) external_authority_event_kinds)

  pub counts-stop :
      (slot event : Mapping)
      → IsStop repr event
      → event_identity_findings repr slot event ≡ []
      → counts slot event ≡ true
  unfolding counts is_empty review_provenance_findings known_event_kinds
      external_authority_event_kinds review_authority_event_kinds
  counts-stop slot event is_stop fits =
      rw
        (
          text_eq_sound (kind_of repr event) engineering_stop is_stop,
          fits,
          review_provenance_findings,
        )
        refl

  gather_event-advisory :
      (slot : Mapping) (g : Gathered) (event : Mapping)
      → (gather_event repr slot g event).advisory_events
        ≡ g.advisory_events ++ (if counts slot event then event ∷ [] else [])
  unfolding gather_event counts is_empty
  gather_event-advisory slot g event = ground (arith, append-nil g.advisory_events)

  pub gather-advisory :
      (slot : Mapping) (g : Gathered) (events : List Mapping)
      → (gather repr slot g events).advisory_events
        ≡ g.advisory_events ++ select (counts slot) events
  unfolding gather
  gather-advisory slot g [] = sym (append-nil g.advisory_events)
  gather-advisory slot g (event ∷ events) = ground (
    arith,
    gather_event-advisory slot g event,
    gather-advisory slot (gather_event repr slot g event) events,
    append_assoc g.advisory_events (event ∷ []) (select (counts slot) events),
    append-nil g.advisory_events,
  )

  Within-from :
      (baseline : Baseline) (allowed : Bool) (findings : List Text) (events : List Mapping)
      → Within (state_semantics baseline.0 allowed) (
          state_semantics
            (outcome_of repr baseline allowed
              (record { findings = findings; advisory_events = events })).state
            allowed)
  unfolding outcome_of
  Within-from baseline allowed findings [] = Within-refl _
  Within-from baseline allowed findings (event ∷ events) =
      apply_event-Within baseline allowed _ (strongest repr event events)

  -- What the evidence comes to grants no more than the projection.
  pub outcome_of-Within :
      (baseline : Baseline) (allowed : Bool) (g : Gathered)
      → Within
          (state_semantics baseline.0 allowed)
          (state_semantics (outcome_of repr baseline allowed g).state allowed)
  outcome_of-Within baseline allowed g = Within-from baseline allowed g.findings g.advisory_events

  pub outcome_of-stop :
      (baseline : Baseline) (allowed : Bool) (findings : List Text) (before : List Mapping)
      (event : Mapping) (after : List Mapping)
      → IsStop repr event
      → (state_semantics
          (outcome_of repr baseline allowed
            (record { findings = findings; advisory_events = before ++ event ∷ after })).state
          allowed).executable
        ≡ false
  unfolding outcome_of
  outcome_of-stop baseline allowed findings [] event after h =
      apply_event-stop baseline allowed _ _ (strongest_first-IsStop repr after event h)
  outcome_of-stop baseline allowed findings (first ∷ before) event after h =
      apply_event-stop baseline allowed _ _ (strongest-IsStop repr before first event after h)
