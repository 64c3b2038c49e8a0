-- ===== src/ControlTower/PathActions/Checked.antt =====
-- What the exit code 0 of the command line of path_action_constraints.py means.
use second_brain_coordinatio.Prelude.{
  ℕ, Text, Bool, true, false, [], ◌∷◌, ◌≡◌, ◌∙◌, refl, sym, arith, ◌&&◌, ◌||◌, not, if◌then◌else◌,
  All, Dict, ok, >>=-eq-ok, raise_if-ok, ok_injective,
}
use second_brain_coordinatio.Kernel.Canonical.Json.{Value}
use second_brain_coordinatio.ControlTower.PathActions.Findings.{PathActionConstraint}
use second_brain_coordinatio.ControlTower.PathActions.Contract.{
  Authority, has_any, validate_contract,
}
use second_brain_coordinatio.ControlTower.PathActions.Diff.{
  Git, git_diff_entries, validate_diff, validate_diff_actions, validate_transition_lineage,
}
use second_brain_coordinatio.ControlTower.PathActions.Main.{
  ConstraintsArgs, given, text_of, one_sha_only, constraints_from_contract, passed_constraints,
  constraints_main,
}
use second_brain_coordinatio.ControlTower.PathActions.Lineage.{Respects, validate_diff_actions_iff}
use second_brain_coordinatio.ControlTower.PathActions.Surface.{has_any-none}
use second_brain_coordinatio.ControlTower.PathActions.Sound.{IsAgreed, validate_contract-IsAgreed}

-- The exit code 0 where the transitions are enforced and the two commits are given.
exit_zero :
    (failed base head some_path acted enforced moved : Bool)
    → ◌≡◌ {A = ℕ}
        (if failed || (base && head && some_path && acted) || (enforced && not failed && moved)
          then 2
          else 0)
        0
    → base ≡ true
    → enforced ≡ true
    → ((base && not head) || (not base && head)) ≡ false
    → (failed ≡ false) × ((some_path && acted) ≡ false) × (moved ≡ false)
exit_zero failed base head some_path acted enforced moved zero based wanted paired = ground arith

-- No constraints, no findings on the diff.
unacted :
    (upper : Text → Text) (git : Git) (base_sha head_sha : Text)
    (constraints : Dict PathActionConstraint)
    → (has_any constraints && has_any (validate_diff upper git base_sha head_sha constraints))
      ≡ false
    → validate_diff upper git base_sha head_sha constraints ≡ []
unfolding validate_diff validate_diff_actions
unacted upper git base_sha head_sha [] h = refl
unacted upper git base_sha head_sha (c ∷ constraints) h =
    has_any-none (validate_diff upper git base_sha head_sha (c ∷ constraints)) h

module _ (fnmatchcase : Text → Text → Bool) (upper : Text → Text) (repr : Value → Text)
    (git : Git) where
  -- A change set that passes: the contract holds, and the constraints that it yields are respected
  -- by the diff and by every transition.
  pub record IsChecked (a : Authority) (args : ConstraintsArgs) : Type 0 where
    pub agreed : IsAgreed fnmatchcase upper repr a args.worker_slot args.lane args.route_file
    pub constraints : Dict PathActionConstraint
    pub reconstructed :
        constraints_from_contract upper
          (validate_contract fnmatchcase upper repr a args.worker_slot args.lane args.route_file)
        ≡ ok constraints
    pub respected :
        All
          (Respects upper
            (git_diff_entries (git.diff_output (text_of args.base_sha) (text_of args.head_sha))))
          constraints
    pub transitions : validate_transition_lineage upper git (text_of args.head_sha) constraints ≡ []

  -- With a base commit and with the transitions enforced, the exit code 0 means that the contract of
  -- worker, claim and route has no finding, that its constraints were reconstructed, that each entry
  -- of the diff that names a constrained path shows an allowed action, and that the transitions have
  -- no finding.
  pub constraints_main-IsChecked :
      (a : Authority) (args : ConstraintsArgs)
      → given args.base_sha ≡ true
      → args.enforce_transition_lineage ≡ true
      → constraints_main fnmatchcase upper repr git a args ≡ ok 0
      → IsChecked a args
  unfolding constraints_main passed_constraints validate_diff
  constraints_main-IsChecked a args based enforced h =
      let contract =
        validate_contract fnmatchcase upper repr a args.worker_slot args.lane args.route_file in
      let base_sha = text_of args.base_sha in
      let head_sha = text_of args.head_sha in
      let paired = raise_if-ok (one_sha_only args.base_sha args.head_sha) _ _ h in
      let parsed = >>=-eq-ok (passed_constraints fnmatchcase upper repr contract) _ paired.1 in
      let constraints = parsed.0 in
      let headed =
        raise_if-ok (args.enforce_transition_lineage && not (given args.head_sha)) _ _ parsed.2 in
      let passed =
        exit_zero (has_any contract.findings) (given args.base_sha) (given args.head_sha)
          (has_any constraints) (has_any (validate_diff upper git base_sha head_sha constraints))
          args.enforce_transition_lineage
          (has_any (validate_transition_lineage upper git head_sha constraints))
          (ok_injective headed.1) based enforced paired.0 in
      record {
        agreed =
            validate_contract-IsAgreed fnmatchcase upper repr a args.worker_slot args.lane
              args.route_file (has_any-none contract.findings passed.0);
        constraints = constraints;
        reconstructed = sym (rw passed.0 refl) ∙ parsed.1;
        respected =
            (validate_diff_actions_iff upper constraints
                (git_diff_entries (git.diff_output base_sha head_sha))).0
              (unacted upper git base_sha head_sha constraints passed.1);
        transitions =
            has_any-none (validate_transition_lineage upper git head_sha constraints) passed.2;
      }
