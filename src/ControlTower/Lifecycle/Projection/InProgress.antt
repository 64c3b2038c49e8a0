-- ===== src/ControlTower/Lifecycle/Projection/InProgress.antt =====
-- The projections that `_baseline_from_projection` reads as active.
use second_brain_coordinatio.Prelude.{
  Text, codes, Bool, true, false, List, [], ◌∷◌, ◌≡◌, ◌≢◌, ◌↔◌, refl, arith, text_eq, text_eq_iff,
  if◌then◌else◌,
}
use second_brain_coordinatio.Kernel.Canonical.Json.{Value}
use second_brain_coordinatio.ControlTower.Values.{Mapping}
use second_brain_coordinatio.ControlTower.Lifecycle.States.{
  LifecycleState, matches_projection_status, status_review_wait, status_accepted,
  status_canonical_merged, status_changes_required, status_frozen_exact, status_frozen_prefixes,
}
use second_brain_coordinatio.ControlTower.Lifecycle.Projection.{
  execution_allowed, upper_field, settle, terminal_or_unknown, legacy_baseline, ignoring_flag,
  activation_baseline, status_baseline, baseline_from_projection,
  terminal_projection_conflict_findings,
}

is_false : (b : Bool) → ¬ (b ≡ true) → b ≡ false
is_false true h = absurd (h refl)
is_false false h = refl

settle-ne-active :
    (state : LifecycleState) (findings : List Text)
    → state ≢ LifecycleState.active
    → (settle state findings).0 ≢ LifecycleState.active
unfolding settle
settle-ne-active state [] ne h = ne h
settle-ne-active state (f ∷ fs) ne h = cc

module _ (upper : Text → Text) (repr : Value → Text) (slot : Mapping) where
  abbrev pub upper_text : Text → Text
  upper_text = upper_field upper repr slot

  abbrev pub Shows : List Text → List Text → Type 0
  Shows exact_values prefixes =
      matches_projection_status upper (upper_text (codes "status")) exact_values prefixes ≡ true

  -- The projection is that of work in progress: it is active and may execute, its closure state is
  -- not RELEASED, and its status is of none of five vocabularies. That of released work is not among
  -- them: the code looks it up only for a projection that is CLOSED.
  pub record IsInProgress : Type 0 where
    pub activation : upper_text (codes "activation_state") ≡ codes "ACTIVE"
    pub allowed : execution_allowed slot ≡ true
    pub unreleased : upper_text (codes "closure_state") ≢ codes "RELEASED"
    pub unfrozen : ¬ Shows status_frozen_exact status_frozen_prefixes
    pub unaccepted : ¬ Shows status_accepted []
    pub unchanged : ¬ Shows status_changes_required []
    pub unmerged : ¬ Shows status_canonical_merged []
    pub unreviewed : ¬ Shows status_review_wait []

  terminal-ne-active :
      (state : LifecycleState)
      → state ≢ LifecycleState.active
      → (terminal_or_unknown upper repr state slot).0 ≢ LifecycleState.active
  unfolding terminal_or_unknown
  terminal-ne-active state ne =
      settle-ne-active state (terminal_projection_conflict_findings upper repr slot) ne

  legacy-ne-active :
      (status : Text) → (legacy_baseline upper repr slot status).0 ≢ LifecycleState.active
  unfolding legacy_baseline
  legacy-ne-active status h = ground arith

  activation-active :
      (activation status : Text) (allowed : Bool)
      → (activation_baseline upper repr slot activation status allowed).0 ≡ LifecycleState.active
      → (activation ≡ codes "ACTIVE") × (allowed ≡ true)
  unfolding activation_baseline ignoring_flag
  activation-active activation status allowed h =
      ground (arith, legacy-ne-active status, text_eq_iff activation (codes "ACTIVE"))

  abbrev matches : List Text → List Text → Bool
  matches = matches_projection_status upper (upper_text (codes "status"))

  status-active :
      (activation : Text) (allowed : Bool)
      → (status_baseline upper repr slot activation (upper_text (codes "status")) allowed).0
        ≡ LifecycleState.active
      → ((activation_baseline upper repr slot activation (upper_text (codes "status")) allowed).0
          ≡ LifecycleState.active)
        × (matches status_accepted [] ≡ false)
        × (matches status_changes_required [] ≡ false)
        × (matches status_canonical_merged [] ≡ false)
        × (matches status_review_wait [] ≡ false)
  unfolding status_baseline ignoring_flag
  status-active activation allowed h = ground arith

  closed-ne-active :
      (test : Bool)
      → (if test
          then terminal_or_unknown upper repr LifecycleState.released slot
          else (LifecycleState.unknown, codes "AMBIGUOUS_CLOSED_PROJECTION_FAILS_CLOSED" ∷ [])).0
        ≢ LifecycleState.active
  closed-ne-active true h = terminal-ne-active LifecycleState.released (λ e. cc) h
  closed-ne-active false h = cc

  baseline-status :
      (baseline_from_projection upper repr slot).0 ≡ LifecycleState.active
      → ((status_baseline upper repr slot
            (upper_text (codes "activation_state"))
            (upper_text (codes "status"))
            (execution_allowed slot)).0
          ≡ LifecycleState.active)
        × (text_eq (upper_text (codes "closure_state")) (codes "RELEASED") ≡ false)
        × (matches status_frozen_exact status_frozen_prefixes ≡ false)
  unfolding baseline_from_projection
  baseline-status h = ground (
    arith,
    terminal-ne-active LifecycleState.released (λ e. cc),
    terminal-ne-active LifecycleState.frozen (λ e. cc),
  )

  -- The projection is read as active exactly when it is that of work in progress.
  pub baseline-active_iff :
      ((baseline_from_projection upper repr slot).0 ≡ LifecycleState.active) ↔ IsInProgress
  unfolding baseline_from_projection status_baseline activation_baseline
  baseline-active_iff = (
    λ h.
        let outer = baseline-status h in
        let inner =
          status-active (upper_text (codes "activation_state")) (execution_allowed slot) outer.0 in
        let core =
          activation-active (upper_text (codes "activation_state")) (upper_text (codes "status"))
            (execution_allowed slot) inner.0 in
        record {
          activation = core.0;
          allowed = core.1;
          unreleased = λ e. cc (outer.1, (text_eq_iff _ _).1 e);
          unfrozen = λ e. cc (outer.2);
          unaccepted = λ e. cc (inner.1);
          unchanged = λ e. cc (inner.2);
          unmerged = λ e. cc (inner.3);
          unreviewed = λ e. cc (inner.4);
        },
    λ p.
        rw
          (
            baseline_from_projection,
            status_baseline,
            activation_baseline,
            p.activation,
            p.allowed,
            is_false _ (λ e. p.unreleased ((text_eq_iff _ _).0 e)),
            is_false _ p.unfrozen,
            is_false _ p.unaccepted,
            is_false _ p.unchanged,
            is_false _ p.unmerged,
            is_false _ p.unreviewed,
          )
          refl,
  )
