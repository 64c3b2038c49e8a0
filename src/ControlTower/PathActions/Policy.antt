-- ===== src/ControlTower/PathActions/Policy.antt =====
-- path_action_policy.py: the contract that an anchor file requires, and the write surface of a whole
-- diff.
use second_brain_coordinatio.Prelude.{
  Text, codes, Bool, true, false, Option, none, some, List, [], ◌∷◌, ◌++◌, not, if◌then◌else◌, any,
  select, length, text_eq, mem_text, Dict, Result, ok, err, ◌>>=◌, ◌>>◌, raise_if,
}
use second_brain_coordinatio.Kernel.Canonical.Json.{Value, arr}
use second_brain_coordinatio.ControlTower.Values.{
  Mapping, get, mapping_of, list_of, items_of, obj_of, is_false, sorted_set,
}
use second_brain_coordinatio.ControlTower.PathActions.Patterns.{pattern_covers_exact}
use second_brain_coordinatio.ControlTower.PathActions.Findings.{
  PathActionConstraint, ActionFinding, raise_action, policy_write_surface_drift,
  base_contract_invalid, anchor_missing, anchor_invalid, general_s0f_not_forbidden,
  runtime_workflow_write_not_forbidden, protected_paths_invalid, required_contract_empty,
  required_contract_mismatch, required_contract_cardinality_invalid,
  required_path_not_in_common_write_surface, protected_root_writable, protected_root_changed,
  outside_write_surface,
}
use second_brain_coordinatio.ControlTower.PathActions.Constraints.{parse_constraints, texts_of}
use second_brain_coordinatio.ControlTower.PathActions.Contract.{
  Authority, has_any, sort_texts, same_surfaces, constraints_text, find_worker, find_claim,
  read_surfaces, sorted_surfaces, route_of, findings_of, validate_contract,
}
use second_brain_coordinatio.ControlTower.PathActions.Diff.{Entry, Git, git_diff_entries}

pub record RequiredContract : Type 0 where
  pub constraints : Dict PathActionConstraint
  pub anchor_file : Text
  pub general_s0f_write_allowed : Bool
  pub runtime_workflow_write_allowed : Bool
  pub protected_enforcement_paths : List Text

-- A non-empty list of non-empty texts.
unfoldable pub named_paths : Option (List Text) → Option (List Text)
named_paths none = none
named_paths (some []) = none
named_paths (some (t ∷ ts)) = if any (λ u. text_eq u []) (t ∷ ts) then none else some (t ∷ ts)

unfoldable pub protected_of : Value → Option (List Text)
protected_of (arr xs) = named_paths (texts_of (list_of xs))
protected_of _ = none

-- The fields of the amendment that make up the one constraint.
unfoldable pub anchored_constraint : Mapping → Value
anchored_constraint amendment = obj_of (
    (codes "path", get amendment (codes "exact_path"))
    ∷ (codes "allowed_actions", get amendment (codes "allowed_actions"))
    ∷ (codes "transition_baseline_sha", get amendment (codes "transition_baseline_sha"))
    ∷ (codes "required_final_state", get amendment (codes "required_final_state"))
    ∷ [])

abbrev pub parsed_all : {A : Type 0} → A × List ActionFinding → Result (List ActionFinding) A
parsed_all (a, []) = ok a
parsed_all (a, f ∷ fs) = err (f ∷ fs)

unfoldable pub protected_field : Text → Value → Result (List ActionFinding) (List Text)
protected_field anchor_file raw = elim (protected_of raw) [
  | none ↦ err (protected_paths_invalid anchor_file ∷ [])
  | some paths ↦ ok (sorted_set paths)
]

unfoldable pub not_one : {A : Type 0} → List A → Bool
not_one (a ∷ []) = false
not_one _ = true

unfoldable pub policy_of :
    Text → Mapping → Dict PathActionConstraint → Result (List ActionFinding) RequiredContract
policy_of anchor_file amendment constraints = do
  raise_if (not_one constraints)
      (required_contract_cardinality_invalid anchor_file (length constraints) ∷ [])
  raise_if (not (is_false (get amendment (codes "general_s0f_write_allowed"))))
      (general_s0f_not_forbidden anchor_file ∷ [])
  raise_if (not (is_false (get amendment (codes "runtime_workflow_write_allowed"))))
      (runtime_workflow_write_not_forbidden anchor_file ∷ [])
  protected ← protected_field anchor_file (get amendment (codes "protected_enforcement_paths"))
  ok (record {
    constraints = constraints;
    anchor_file = anchor_file;
    general_s0f_write_allowed = false;
    runtime_workflow_write_allowed = false;
    protected_enforcement_paths = protected;
  })

module _ (upper : Text → Text) where
  unfoldable pub required_of : Text → Mapping → Result (List ActionFinding) RequiredContract
  required_of anchor_file amendment = do
    constraints ← parsed_all (
        parse_constraints upper (arr (items_of (anchored_constraint amendment ∷ [])))
          (codes "required_contract_anchor"))
    policy_of anchor_file amendment constraints

  unfoldable pub amended : Text → Option Mapping → Result (List ActionFinding) RequiredContract
  amended anchor_file none = err (anchor_invalid anchor_file ∷ [])
  amended anchor_file (some amendment) = required_of anchor_file amendment

  -- `_load_required_contract`, on the document of the file, none where it does not exist.
  unfoldable pub load_required_contract :
      Text → Option Mapping → Result (List ActionFinding) RequiredContract
  load_required_contract anchor_file none = err (anchor_missing anchor_file ∷ [])
  load_required_contract anchor_file (some doc) =
      amended anchor_file (mapping_of (get doc (codes "amendment")))

module _ (repr : Value → Text) where
  -- `_load_common_write_surface`
  unfoldable pub load_common_write_surface :
      Authority → Text → Text → List Text × List ActionFinding
  load_common_write_surface a worker_slot_id lane_id =
      let worker = find_worker repr a worker_slot_id in
      let claim = find_claim repr a lane_id in
      let paths = read_surfaces worker.0 claim.0 (route_of a.route_doc) in
      let surfaces = sorted_surfaces paths in
      let findings = worker.1 ++ claim.1 ++ findings_of paths in
      if same_surfaces surfaces
      then (surfaces.worker_registry, findings)
      else ([], findings ++ policy_write_surface_drift ∷ [])

pub record Anchor : Type 0 where
  pub expected : Dict PathActionConstraint
  pub actual : Dict PathActionConstraint
  pub write_paths : List Text
  pub protected_enforcement_paths : List Text
  pub findings : List ActionFinding

abbrev pub anchored : Result (List ActionFinding) RequiredContract → Dict PathActionConstraint
anchored (err findings) = []
anchored (ok required) = required.constraints

abbrev pub protected_paths_of : Result (List ActionFinding) RequiredContract → List Text
protected_paths_of (err findings) = []
protected_paths_of (ok required) = required.protected_enforcement_paths

abbrev pub anchor_findings : Result (List ActionFinding) RequiredContract → List ActionFinding
anchor_findings (err findings) = findings
anchor_findings (ok required) = []

-- `not expected`, or else `actual != expected`; the two are compared by their canonical texts.
unfoldable pub mismatch_findings :
    Text → Dict PathActionConstraint → Dict PathActionConstraint → List ActionFinding
mismatch_findings file actual [] = required_contract_empty file ∷ []
mismatch_findings file actual (c ∷ cs) =
    raise_action (not (text_eq (constraints_text actual) (constraints_text (c ∷ cs))))
      (required_contract_mismatch file)

unfoldable pub required_path_findings : List Text → Dict PathActionConstraint → List ActionFinding
required_path_findings write_paths [] = []
required_path_findings write_paths ((path, constraint) ∷ constraints) =
    raise_action (not (mem_text path write_paths)) (required_path_not_in_common_write_surface path)
    ++ required_path_findings write_paths constraints

module _ (fnmatchcase : Text → Text → Bool) where
  -- `sorted(pattern for pattern in write_paths if _pattern_covers_exact(pattern, path))`
  unfoldable pub covering_paths : List Text → Text → List Text
  covering_paths write_paths path =
      sort_texts (select (λ p. pattern_covers_exact fnmatchcase p path) write_paths)

  unfoldable pub protected_findings : List Text → List Text → List ActionFinding
  protected_findings write_paths [] = []
  protected_findings write_paths (protected ∷ more) =
      raise_action (has_any (covering_paths write_paths protected))
        (protected_root_writable protected (covering_paths write_paths protected))
      ++ protected_findings write_paths more

  module _ (upper : Text → Text) (repr : Value → Text) where
    -- `validate_required_anchor`
    unfoldable pub validate_required_anchor :
        Authority → Text → Text → Text → Text → Option Mapping → Anchor
    validate_required_anchor a worker_slot_id lane_id route_file required_contract_file anchor_doc =
        let contract =
          validate_contract fnmatchcase upper repr a worker_slot_id lane_id route_file in
        let required = load_required_contract upper required_contract_file anchor_doc in
        let surface = load_common_write_surface repr a worker_slot_id lane_id in
        record {
          expected = anchored required;
          actual = contract.constraints;
          write_paths = surface.0;
          protected_enforcement_paths = protected_paths_of required;
          findings =
              raise_action (has_any contract.findings) base_contract_invalid
              ++ anchor_findings required
              ++ mismatch_findings required_contract_file contract.constraints (anchored required)
              ++ surface.1
              ++ required_path_findings surface.0 (anchored required)
              ++ protected_findings surface.0 (protected_paths_of required);
        }

  -- One path of one entry of the diff.
  unfoldable pub changed_path_findings :
      List Text → List Text → Text → List Text → List ActionFinding
  changed_path_findings write_paths protected status [] = []
  changed_path_findings write_paths protected status (path ∷ paths) =
      raise_action (mem_text path protected) (protected_root_changed status path)
      ++ raise_action (not (has_any (covering_paths write_paths path)))
          (outside_write_surface status path)
      ++ changed_path_findings write_paths protected status paths

  unfoldable pub entry_findings : List Text → List Text → List Entry → List ActionFinding
  entry_findings write_paths protected [] = []
  entry_findings write_paths protected ((status, paths) ∷ entries) =
      changed_path_findings write_paths protected status paths
      ++ entry_findings write_paths protected entries

  -- `validate_full_diff_write_surface`
  unfoldable pub validate_full_diff_write_surface :
      Git → Text → Text → List Text → List Text → List ActionFinding
  validate_full_diff_write_surface git base_sha head_sha write_paths protected_paths =
      entry_findings write_paths protected_paths
        (git_diff_entries (git.diff_output base_sha head_sha))
