-- ===== src/ControlTower/Lifecycle/Resolution/Authority.antt =====
-- How far evidence can go: lemmas on `resolve_worker_lifecycle` with evidence and without it.
use mathlib.Core.Path.{subst}
use second_brain_coordinatio.Prelude.{
  not, Text, Bool, true, false, List, [], ◌∷◌, ◌++◌, ◌≡◌, ◌∙◌, refl, sym, arith, select,
  select-append, Dict, lookup, ◌&&◌, if◌then◌else◌,
}
use second_brain_coordinatio.Kernel.Canonical.Json.{Value}
use second_brain_coordinatio.ControlTower.Values.{Mapping}
use second_brain_coordinatio.ControlTower.Lifecycle.States.{LifecycleState, state_semantics}
use second_brain_coordinatio.ControlTower.Lifecycle.Projection.{
  execution_allowed, baseline_from_projection,
}
use second_brain_coordinatio.ControlTower.Lifecycle.Evidence.{
  Gathered, Outcome, event_identity_findings, gather, outcome_of, is_active_state,
}
use second_brain_coordinatio.ControlTower.Lifecycle.Evidence.Strongest.{IsStop}
use second_brain_coordinatio.ControlTower.Lifecycle.Evidence.Outcomes.{
  counts, counts-stop, gather-advisory, outcome_of-Within, outcome_of-stop,
}
use second_brain_coordinatio.ControlTower.Lifecycle.Resolution.{
  WorkerLifecycleResolution, resolution_of, resolve_worker_lifecycle, evidence_of,
  occupied_capacity_count,
}

-- The first resolution grants no more than the second one and holds on to as much.
pub record NoMoreThan (after before : WorkerLifecycleResolution) : Type 0 where
  pub occupies : after.occupies_capacity ≡ before.occupies_capacity
  pub ends : after.terminal ≡ before.terminal
  pub executes : after.executable ≡ true → before.executable ≡ true
  pub writes : after.current_write_authority ≡ true → before.current_write_authority ≡ true

module _ (upper : Text → Text) (repr : Value → Text) (sha256 : Text → Text) where
  abbrev resolve : Mapping → List Mapping → WorkerLifecycleResolution
  resolve = resolve_worker_lifecycle upper repr sha256

  -- The flag that the end of the method tests is one that the meaning of the state has already.
  semantics_of_state :
      (state : LifecycleState) (allowed : Bool)
      → ((if is_active_state state && not allowed
            then false
            else (state_semantics state allowed).executable)
          ≡ (state_semantics state allowed).executable)
        × ((if is_active_state state && not allowed
              then false
              else (state_semantics state allowed).current_write_authority)
            ≡ (state_semantics state allowed).executable)
  unfolding is_active_state state_semantics
  semantics_of_state LifecycleState.active allowed = ground arith
  semantics_of_state _ allowed = (refl, refl)

  pub executable-resolution_of :
      (slot : Mapping) (allowed : Bool) (o : Outcome)
      → ((resolution_of repr sha256 slot allowed o).executable
          ≡ (state_semantics o.state allowed).executable)
        × ((resolution_of repr sha256 slot allowed o).current_write_authority
            ≡ (state_semantics o.state allowed).executable)
  unfolding resolution_of
  executable-resolution_of slot allowed o = semantics_of_state o.state allowed

  pub resolve-NoMoreThan :
      (slot : Mapping) (events : List Mapping) → NoMoreThan (resolve slot events) (resolve slot [])
  unfolding resolve_worker_lifecycle gather outcome_of resolution_of
  resolve-NoMoreThan slot events =
      let allowed = execution_allowed slot in
      let baseline = baseline_from_projection upper repr slot in
      let g = gather repr slot (record { findings = baseline.1; advisory_events = [] }) events in
      let w = outcome_of-Within repr baseline allowed g in
      let after = executable-resolution_of slot allowed (outcome_of repr baseline allowed g) in
      let before = executable-resolution_of slot allowed (
        outcome_of repr baseline allowed
          (record { findings = baseline.1; advisory_events = [] })) in
      record {
        occupies = w.occupies;
        ends = w.ends;
        executes = λ h. before.0 ∙ w.executes (sym after.0 ∙ h);
        writes = λ h. before.1 ∙ w.executes (sym after.1 ∙ h);
      }

  -- Write authority, with evidence, needs a projection that is executable.
  pub authority_alone :
      (slot : Mapping) (events : List Mapping)
      → (resolve slot events).current_write_authority ≡ true
      → (resolve slot []).executable ≡ true
  unfolding resolve_worker_lifecycle gather outcome_of
  authority_alone slot events writes =
      (executable-resolution_of slot (execution_allowed slot) _).0
      ∙ (sym (executable-resolution_of slot (execution_allowed slot) _).1
          ∙ NoMoreThan.writes (resolve-NoMoreThan slot events) writes)

  -- An engineering stop that names the slot ends its execution, among whatever other evidence: the
  -- slot is not executable and has no write authority.
  pub resolve-stops :
      (slot : Mapping) (before : List Mapping) (stop : Mapping) (after : List Mapping)
      → IsStop repr stop
      → event_identity_findings repr slot stop ≡ []
      → ((resolve slot (before ++ stop ∷ after)).executable ≡ false)
        × ((resolve slot (before ++ stop ∷ after)).current_write_authority ≡ false)
  unfolding resolve_worker_lifecycle
  resolve-stops slot before stop after is_stop fits =
      let allowed = execution_allowed slot in
      let baseline = baseline_from_projection upper repr slot in
      let start : Gathered = record { findings = baseline.1; advisory_events = [] } in
      let g = gather repr slot start (before ++ stop ∷ after) in
      let kept : g.advisory_events
          ≡ select (counts repr slot) before ++ stop ∷ select (counts repr slot) after =
        gather-advisory repr slot start (before ++ stop ∷ after)
        ∙ (select-append (counts repr slot) before (stop ∷ after)
            ∙ rw (counts-stop repr slot stop is_stop fits) refl) in
      let ended : (state_semantics (outcome_of repr baseline allowed g).state allowed).executable
          ≡ false =
        subst
          (λ events.
            (state_semantics
              (outcome_of repr baseline allowed
                (record { findings = g.findings; advisory_events = events })).state
              allowed).executable
            ≡ false)
          (sym kept) (outcome_of-stop repr baseline allowed g.findings _ stop _ is_stop) in
      let flags = executable-resolution_of slot allowed (outcome_of repr baseline allowed g) in
      (flags.0 ∙ ended, flags.1 ∙ ended)

  -- Evidence frees no capacity and takes none: the count with evidence is that without.
  pub occupied_capacity_count-evidence :
      (slots : List Mapping) (evidence : Dict (List Mapping))
      → occupied_capacity_count upper repr sha256 slots evidence
        ≡ occupied_capacity_count upper repr sha256 slots []
  unfolding occupied_capacity_count evidence_of lookup
  occupied_capacity_count-evidence [] evidence = refl
  occupied_capacity_count-evidence (slot ∷ slots) evidence =
      rw
        (
          NoMoreThan.occupies (resolve-NoMoreThan slot (evidence_of repr evidence slot)),
          occupied_capacity_count-evidence slots evidence,
        )
        refl
