-- ===== src/ControlTower/PathActions/Main.antt =====
-- The command lines of path_action_constraints.py and path_action_policy.py, up to the exit code: the
-- output that they print, and the parsing of the arguments, are left out.
use second_brain_coordinatio.Prelude.{
  ℕ, Text, codes, Bool, false, Option, none, some, [], ◌∷◌, ◌&&◌, ◌||◌, not, if◌then◌else◌, map,
  Dict, Result, ok, err, ◌>>=◌, ◌>>◌, raise_if,
}
use second_brain_coordinatio.Kernel.Canonical.Json.{Value, str, arr}
use second_brain_coordinatio.ControlTower.Values.{Mapping, items_of, mapping_of, obj_of}
use second_brain_coordinatio.ControlTower.PathActions.Findings.{PathActionConstraint}
use second_brain_coordinatio.ControlTower.PathActions.Constraints.{
  parse_constraints, canonical_constraint_map,
}
use second_brain_coordinatio.ControlTower.PathActions.Contract.{
  Authority, Contract, has_any, validate_contract,
}
use second_brain_coordinatio.ControlTower.PathActions.Diff.{
  Git, validate_diff, validate_transition_lineage,
}
use second_brain_coordinatio.ControlTower.PathActions.Policy.{
  Anchor, validate_required_anchor, validate_full_diff_write_surface,
}

-- `parser.error` and the ValueError of `_constraints_from_contract`.
pub data MainError : Type 0 where
  usage not_reconstructed : MainError

-- `bool(text)` of an argument
abbrev pub given : Option Text → Bool
given none = false
given (some t) = has_any t

abbrev pub text_of : Option Text → Text
text_of none = []
text_of (some t) = t

-- `{"path": path, **spec}`
unfoldable pub raw_constraint : Text × Value → Value
raw_constraint (path, spec) =
    obj_of ((codes "path", str path) ∷ (elim (mapping_of spec) [ none ↦ [] | some m ↦ m ]))

pub record ConstraintsArgs : Type 0 where
  pub worker_slot : Text
  pub lane : Text
  pub route_file : Text
  pub base_sha : Option Text
  pub head_sha : Option Text
  pub enforce_transition_lineage : Bool

pub record PolicyArgs : Type 0 where
  pub worker_slot : Text
  pub lane : Text
  pub route_file : Text
  pub required_contract_file : Text
  pub base_sha : Option Text
  pub head_sha : Option Text
  pub enforce_full_write_surface : Bool

-- `bool(args.base_sha) != bool(args.head_sha)`
abbrev pub one_sha_only : Option Text → Option Text → Bool
one_sha_only base_sha head_sha =
    (given base_sha && not (given head_sha)) || (not (given base_sha) && given head_sha)

module _ (upper : Text → Text) where
  -- `_constraints_from_contract`
  unfoldable pub constraints_from_contract : Contract → Result MainError (Dict PathActionConstraint)
  constraints_from_contract contract =
      let parsed =
        parse_constraints upper
          (arr (items_of (map raw_constraint (canonical_constraint_map contract.constraints))))
          (codes "validated_contract") in
      if has_any parsed.1 then err not_reconstructed else ok parsed.0

module _ (fnmatchcase : Text → Text → Bool) (upper : Text → Text) (repr : Value → Text) where
  unfoldable pub passed_constraints : Contract → Result MainError (Dict PathActionConstraint)
  passed_constraints contract =
      if has_any contract.findings then ok [] else constraints_from_contract upper contract

  -- The exit code of `main` of path_action_constraints.py.
  unfoldable pub constraints_main : Git → Authority → ConstraintsArgs → Result MainError ℕ
  constraints_main git a args =
      let contract =
        validate_contract fnmatchcase upper repr a args.worker_slot args.lane args.route_file in
      let failed = has_any contract.findings in
      let base_sha = text_of args.base_sha in
      let head_sha = text_of args.head_sha in
      do
        raise_if (one_sha_only args.base_sha args.head_sha) usage
        constraints ← passed_constraints contract
        raise_if (args.enforce_transition_lineage && not (given args.head_sha)) usage
        ok (
            if failed
              || (given args.base_sha
                  && given args.head_sha
                  && has_any constraints
                  && has_any (validate_diff upper git base_sha head_sha constraints))
              || (args.enforce_transition_lineage
                  && not failed
                  && has_any (validate_transition_lineage upper git head_sha constraints))
            then 2
            else 0)

  abbrev pub anchor_of : Authority → Option Mapping → PolicyArgs → Anchor
  anchor_of a anchor_doc args =
      validate_required_anchor fnmatchcase upper repr a args.worker_slot args.lane args.route_file
        args.required_contract_file anchor_doc

  -- The exit code of `main` of path_action_policy.py.
  unfoldable pub policy_main : Git → Authority → Option Mapping → PolicyArgs → Result MainError ℕ
  policy_main git a anchor_doc args =
      let anchor = anchor_of a anchor_doc args in
      do
        raise_if (one_sha_only args.base_sha args.head_sha) usage
        raise_if (args.enforce_full_write_surface && not (given args.head_sha)) usage
        ok (
            if has_any anchor.findings
              || (args.enforce_full_write_surface
                  && given args.base_sha
                  && given args.head_sha
                  && has_any (
                      validate_full_diff_write_surface fnmatchcase git (text_of args.base_sha)
                        (text_of args.head_sha) anchor.write_paths
                        anchor.protected_enforcement_paths))
            then 2
            else 0)
