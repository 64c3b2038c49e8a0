-- ===== src/ControlTower/PathActions/Findings.antt =====
-- path_action_constraints.py and path_action_policy.py: the constraint on a path, and the findings,
-- all of severity ERROR, each with what its evidence names first.
use second_brain_coordinatio.Prelude.{ℕ, Text, Bool, Option, List, [], ◌∷◌, if◌then◌else◌}

pub record PathActionConstraint : Type 0 where
  pub path : Text
  pub allowed_actions : List Text
  pub transition_baseline_sha : Option Text
  pub required_final_state : Option Text

pub data ActionFinding : Type 0 where
  constraints_not_list : (source : Text) → ActionFinding
  constraint_not_mapping constraint_path_invalid constraint_not_exact allowed_actions_invalid
        unknown_action baseline_sha_invalid final_state_invalid final_state_without_baseline :
      (source : Text) (index : ℕ) → ActionFinding
  duplicate_path path_not_writable broader_write_bypass : (source path : Text) → ActionFinding
  write_paths_invalid authority_list_invalid : (source : Text) → ActionFinding
  authority_identity_not_unique : (source key value : Text) (match_count : ℕ) → ActionFinding
  route_missing : (route_file : Text) → ActionFinding
  authority_identity_drift : (field : Text) → ActionFinding
  write_surface_drift constraint_drift policy_write_surface_drift base_contract_invalid :
      ActionFinding
  empty_authority : (path : Text) → ActionFinding
  diff_violation : (path git_status derived_action : Text) → ActionFinding
  baseline_unavailable baseline_not_ancestor baseline_path_missing : (path : Text) → ActionFinding
  final_state_violation : (path required_final_state : Text) → ActionFinding
  delete_transition_not_exact : (path : Text) (actions : List Text) → ActionFinding
  anchor_missing anchor_invalid general_s0f_not_forbidden runtime_workflow_write_not_forbidden
        protected_paths_invalid required_contract_empty required_contract_mismatch :
      (anchor_file : Text) → ActionFinding
  required_contract_cardinality_invalid :
      (anchor_file : Text) (constraint_count : ℕ) → ActionFinding
  required_path_not_in_common_write_surface : (path : Text) → ActionFinding
  protected_root_writable : (protected_path : Text) (covering : List Text) → ActionFinding
  protected_root_changed outside_write_surface : (git_status path : Text) → ActionFinding

-- `if test: findings.append(finding)`
abbrev pub raise_action : Bool → ActionFinding → List ActionFinding
raise_action test finding = if test then finding ∷ [] else []
