-- ===== src/ControlTower/PathActions/Gate.antt =====
-- What the exit code 0 of the command line of path_action_policy.py means.
use second_brain_coordinatio.Prelude.{
  ℕ, Text, Bool, true, false, Option, ◌≡◌, arith, ◌&&◌, ◌||◌, not, if◌then◌else◌, All, ok,
  raise_if-ok, ok_injective,
}
use second_brain_coordinatio.Kernel.Canonical.Json.{Value}
use second_brain_coordinatio.ControlTower.Values.{Mapping}
use second_brain_coordinatio.ControlTower.PathActions.Contract.{
  Authority, has_any, validate_contract,
}
use second_brain_coordinatio.ControlTower.PathActions.Diff.{Entry, Git, git_diff_entries}
use second_brain_coordinatio.ControlTower.PathActions.Policy.{validate_full_diff_write_surface}
use second_brain_coordinatio.ControlTower.PathActions.Main.{
  PolicyArgs, given, text_of, one_sha_only, anchor_of, policy_main,
}
use second_brain_coordinatio.ControlTower.PathActions.Sound.{write_sets}
use second_brain_coordinatio.ControlTower.PathActions.Surface.{
  IsPermitted, has_any-none, validate_full_diff_write_surface_iff,
}
use second_brain_coordinatio.ControlTower.PathActions.Anchored.{
  IsAnchored, validate_required_anchor-IsAnchored,
}

-- The exit code 0 on an enforced check whose two commits are given.
exit_zero :
    (failed enforced base head outside : Bool)
    → ◌≡◌ {A = ℕ} (if failed || (enforced && base && head && outside) then 2 else 0) 0
    → enforced ≡ true
    → (enforced && not head) ≡ false
    → ((base && not head) || (not base && head)) ≡ false
    → (failed ≡ false) × (outside ≡ false)
exit_zero failed enforced base head outside zero wanted headed paired = ground arith

module _ (fnmatchcase : Text → Text → Bool) (upper : Text → Text) (repr : Value → Text)
    (git : Git) where
  -- A change set that the gate lets through.
  pub record IsGated (a : Authority) (anchor_doc : Option Mapping) (args : PolicyArgs)
      : Type 0 where
    pub anchored :
        IsAnchored fnmatchcase
          (anchor_of fnmatchcase upper repr a anchor_doc args)
          (validate_contract fnmatchcase upper repr a args.worker_slot args.lane args.route_file)
          (write_sets repr a args.worker_slot args.lane)
    pub permitted :
        All
          (λ (e : Entry).
            All
              (IsPermitted fnmatchcase
                (anchor_of fnmatchcase upper repr a anchor_doc args).write_paths
                (anchor_of fnmatchcase upper repr a anchor_doc args).protected_enforcement_paths)
              e.1)
          (git_diff_entries (git.diff_output (text_of args.base_sha) (text_of args.head_sha)))

  -- Where the full write surface is enforced, the exit code 0 means that the anchor holds, and that
  -- each path of the diff between the two commits is no protected path of the anchor and is covered
  -- by a path of the common write surface.
  pub policy_main-IsGated :
      (a : Authority) (anchor_doc : Option Mapping) (args : PolicyArgs)
      → args.enforce_full_write_surface ≡ true
      → policy_main fnmatchcase upper repr git a anchor_doc args ≡ ok 0
      → IsGated a anchor_doc args
  unfolding policy_main
  policy_main-IsGated a anchor_doc args enforced h =
      let anchor = anchor_of fnmatchcase upper repr a anchor_doc args in
      let paired = raise_if-ok (one_sha_only args.base_sha args.head_sha) _ _ h in
      let headed =
        raise_if-ok (args.enforce_full_write_surface && not (given args.head_sha)) _ _ paired.1 in
      let outside =
        validate_full_diff_write_surface fnmatchcase git (text_of args.base_sha)
          (text_of args.head_sha) anchor.write_paths anchor.protected_enforcement_paths in
      let passed =
        exit_zero (has_any anchor.findings) args.enforce_full_write_surface (given args.base_sha)
          (given args.head_sha) (has_any outside) (ok_injective headed.1) enforced headed.0
          paired.0 in
      record {
        anchored =
            validate_required_anchor-IsAnchored fnmatchcase upper repr a args.worker_slot args.lane
              args.route_file args.required_contract_file anchor_doc
              (has_any-none anchor.findings passed.0);
        permitted =
            (validate_full_diff_write_surface_iff fnmatchcase git (text_of args.base_sha)
                (text_of args.head_sha) anchor.write_paths anchor.protected_enforcement_paths).0
              (has_any-none outside passed.1);
      }
