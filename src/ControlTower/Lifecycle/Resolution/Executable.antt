-- ===== src/ControlTower/Lifecycle/Resolution/Executable.antt =====
-- When a slot may execute: `resolve_worker_lifecycle` against the projection of the slot.
use second_brain_coordinatio.Prelude.{Text, Bool, true, List, [], ◌≡◌, ◌↔◌, ◌∙◌, refl, sym}
use second_brain_coordinatio.Kernel.Canonical.Json.{Value}
use second_brain_coordinatio.ControlTower.Values.{Mapping}
use second_brain_coordinatio.ControlTower.Lifecycle.States.{LifecycleState, state_semantics}
use second_brain_coordinatio.ControlTower.Lifecycle.Projection.{
  execution_allowed, baseline_from_projection,
}
use second_brain_coordinatio.ControlTower.Lifecycle.Projection.InProgress.{
  IsInProgress, baseline-active_iff,
}
use second_brain_coordinatio.ControlTower.Lifecycle.Evidence.{outcome_of, gather}
use second_brain_coordinatio.ControlTower.Lifecycle.Resolution.{resolve_worker_lifecycle}
use second_brain_coordinatio.ControlTower.Lifecycle.Resolution.Authority.{
  executable-resolution_of, authority_alone,
}

executable_state :
    (state : LifecycleState) (allowed : Bool)
    → ((state_semantics state allowed).executable ≡ true)
      ↔ ((state ≡ LifecycleState.active) × (allowed ≡ true))
unfolding state_semantics
executable_state LifecycleState.active allowed = (λ h. (refl, h), λ p. p.1)
executable_state _ allowed = (λ h. cc, λ p. cc)

module _ (upper : Text → Text) (repr : Value → Text) (sha256 : Text → Text) (slot : Mapping) where
  resolve_projection :
      (resolve_worker_lifecycle upper repr sha256 slot []).executable
      ≡ (state_semantics
          (baseline_from_projection upper repr slot).0
          (execution_allowed slot)).executable
  unfolding resolve_worker_lifecycle gather outcome_of
  resolve_projection =
      (executable-resolution_of upper repr sha256 slot (execution_allowed slot) _).0

  -- Without evidence, a slot is executable exactly when its activation state is ACTIVE, its execution
  -- is allowed, its closure state is not RELEASED, and its status is none of the frozen, accepted,
  -- changes-required, canonical-merged and review-wait ones.
  pub resolve-executable_iff :
      ((resolve_worker_lifecycle upper repr sha256 slot []).executable ≡ true)
      ↔ IsInProgress upper repr slot
  resolve-executable_iff =
      let baseline = baseline_from_projection upper repr slot in
      let meaning = executable_state baseline.0 (execution_allowed slot) in
      (
        λ h. (baseline-active_iff upper repr slot).0 (meaning.0 (sym resolve_projection ∙ h)).0,
        λ p. resolve_projection ∙ meaning.1 ((baseline-active_iff upper repr slot).1 p, p.allowed),
      )

  -- Whatever evidence there is, a slot with write authority is executable by its projection alone,
  -- and the projection is that of work in progress.
  pub resolve-writes :
      (events : List Mapping)
      → (resolve_worker_lifecycle upper repr sha256 slot events).current_write_authority ≡ true
      → ((resolve_worker_lifecycle upper repr sha256 slot []).executable ≡ true)
        × IsInProgress upper repr slot
  resolve-writes events writes =
      let alone = authority_alone upper repr sha256 slot events writes in
      (alone, resolve-executable_iff.0 alone)
