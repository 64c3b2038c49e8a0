-- ===== src/ControlTower/PathActions/Anchored.antt =====
-- What an anchor without findings guarantees: lemmas on `validate_required_anchor`.
use second_brain_coordinatio.Prelude.{
  Text, codes, Bool, true, false, Option, none, some, List, [], ◌∷◌, ◌++◌, ◌≡◌, ◌∙◌, refl, sym, ap,
  arith, not, if◌then◌else◌, any, text_eq_sound, mem_text, All, Dict, Result, ok, err, >>=-eq-ok,
  raise_if-ok, ok_injective,
}
use second_brain_coordinatio.Kernel.Canonical.Json.{Value, arr}
use second_brain_coordinatio.ControlTower.Values.{Mapping, get, mapping_of, items_of, is_false}
use second_brain_coordinatio.ControlTower.PathActions.Findings.{
  PathActionConstraint, ActionFinding, raise_action, base_contract_invalid, protected_root_writable,
}
use second_brain_coordinatio.ControlTower.PathActions.Constraints.{parse_constraints}
use second_brain_coordinatio.ControlTower.PathActions.Contract.{
  Authority, Contract, Sources, has_any, constraints_text, validate_contract, same_surfaces,
}
use second_brain_coordinatio.ControlTower.PathActions.Policy.{
  RequiredContract, Anchor, policy_of, amended, anchored_constraint, parsed_all, not_one,
  required_of, load_required_contract, load_common_write_surface, anchored, protected_paths_of,
  anchor_findings, protected_field, mismatch_findings, required_path_findings, covering_paths,
  protected_findings, validate_required_anchor,
}
use second_brain_coordinatio.ControlTower.PathActions.Lineage.{append-empty, raise_action-empty}
use second_brain_coordinatio.ControlTower.PathActions.Surface.{covers, has_any-none, covered_iff}
use second_brain_coordinatio.ControlTower.PathActions.Sound.{write_sets}

abbrev Constraints : Type 0
Constraints = Dict PathActionConstraint

-- A dict with one entry.
one_entry :
    (cs : Constraints)
    → not_one cs ≡ false
    → (path : Text) × (c : PathActionConstraint) × (cs ≡ (path, c) ∷ [])
unfolding not_one
one_entry [] h = cc
one_entry ((path, c) ∷ []) h = (path, c, refl)
one_entry (a ∷ b ∷ cs) h = cc

policy_of-one :
    (file : Text) (amendment : Mapping) (cs : Constraints) (required : RequiredContract)
    → policy_of file amendment cs ≡ ok required
    → not_one required.constraints ≡ false
unfolding policy_of
policy_of-one file amendment cs required h =
    let one = raise_if-ok (not_one cs) _ _ h in
    let general =
      raise_if-ok (not (is_false (get amendment (codes "general_s0f_write_allowed")))) _ _ one.1 in
    let workflow =
      raise_if-ok (not (is_false (get amendment (codes "runtime_workflow_write_allowed")))) _ _
        general.1 in
    let named =
      >>=-eq-ok (protected_field file (get amendment (codes "protected_enforcement_paths"))) _
        workflow.1 in
    ap (λ (r : RequiredContract). not_one r.constraints) (sym (ok_injective named.2)) ∙ one.0

required_of-one :
    (upper : Text → Text) (file : Text) (amendment : Mapping) (required : RequiredContract)
    → required_of upper file amendment ≡ ok required
    → not_one required.constraints ≡ false
unfolding required_of
required_of-one upper file amendment required h =
    let parsed =
      >>=-eq-ok
        (parsed_all (
          parse_constraints upper (arr (items_of (anchored_constraint amendment ∷ [])))
            (codes "required_contract_anchor")))
        (policy_of file amendment) h in
    policy_of-one file amendment parsed.0 required parsed.2

amended-one :
    (upper : Text → Text) (file : Text) (amendment : Option Mapping) (required : RequiredContract)
    → amended upper file amendment ≡ ok required
    → not_one required.constraints ≡ false
unfolding amended
amended-one upper file none required h = cc
amended-one upper file (some amendment) required h = required_of-one upper file amendment required h

load_required_contract-one :
    (upper : Text → Text) (file : Text) (doc : Option Mapping) (required : RequiredContract)
    → load_required_contract upper file doc ≡ ok required
    → not_one required.constraints ≡ false
unfolding load_required_contract
load_required_contract-one upper file none required h = cc
load_required_contract-one upper file (some doc) required h =
    amended-one upper file (mapping_of (get doc (codes "amendment"))) required h

mismatch_findings-none :
    (file : Text) (actual expected : Constraints)
    → mismatch_findings file actual expected ≡ []
    → constraints_text actual ≡ constraints_text expected
unfolding mismatch_findings
mismatch_findings-none file actual [] h = cc
mismatch_findings-none file actual (c ∷ cs) h =
    text_eq_sound (constraints_text actual) (constraints_text (c ∷ cs)) (ground (arith, h))

surface_unless :
    (same : Bool) (paths : List Text) (findings : List ActionFinding) (drift : ActionFinding)
    → let surface : List Text × List ActionFinding =
        if same then (paths, findings) else ([], findings ++ drift ∷ []) in
      surface.1 ≡ [] → surface.0 ≡ paths
surface_unless true paths findings drift h = refl
surface_unless false paths [] drift h = cc
surface_unless false paths (f ∷ findings) drift h = cc

module _ (fnmatchcase : Text → Text → Bool) where
  protected_findings-none :
      (write_paths protected : List Text)
      → protected_findings fnmatchcase write_paths protected ≡ []
      → All (λ p. any (λ q. covers fnmatchcase q p) write_paths ≡ false) protected
  unfolding protected_findings
  protected_findings-none write_paths [] h = tt
  protected_findings-none write_paths (p ∷ protected) h =
      let covering = covering_paths fnmatchcase write_paths p in
      let both =
        (append-empty (raise_action (has_any covering) (protected_root_writable p covering))
            (protected_findings fnmatchcase write_paths protected)).0
          h in
      let quiet = (raise_action-empty (has_any covering) _).0 both.0 in
      let iff = covered_iff fnmatchcase write_paths p in
      (ground (arith, quiet, iff), protected_findings-none write_paths protected both.1)

  -- What an anchor without findings has established.
  pub record IsAnchored (anchor : Anchor) (contract : Contract) (surfaces : Sources (List Text))
      : Type 0 where
    pub sound : contract.findings ≡ []
    pub path : Text
    pub constraint : PathActionConstraint
    pub one : anchor.expected ≡ (path, constraint) ∷ []
    pub agrees : constraints_text anchor.actual ≡ constraints_text anchor.expected
    pub surface : anchor.write_paths ≡ surfaces.worker_registry
    pub listed : mem_text path anchor.write_paths ≡ true
    pub unwritable :
        All
          (λ p. any (λ q. covers fnmatchcase q p) anchor.write_paths ≡ false)
          anchor.protected_enforcement_paths

  -- The expected constraints, unless there are none, are the one of the anchor.
  expected_one :
      (upper : Text → Text) (file : Text) (doc : Option Mapping) (actual : Constraints)
      (r : Result (List ActionFinding) RequiredContract)
      → load_required_contract upper file doc ≡ r
      → mismatch_findings file actual (anchored r) ≡ []
      → not_one (anchored r) ≡ false
  unfolding mismatch_findings
  expected_one upper file doc actual (err findings) loaded h = cc
  expected_one upper file doc actual (ok required) loaded h =
      load_required_contract-one upper file doc required loaded

  load_common_write_surface-none :
      (repr : Value → Text) (a : Authority) (worker_slot_id lane_id : Text)
      → (load_common_write_surface repr a worker_slot_id lane_id).1 ≡ []
      → (load_common_write_surface repr a worker_slot_id lane_id).0
        ≡ (write_sets repr a worker_slot_id lane_id).worker_registry
  unfolding load_common_write_surface
  load_common_write_surface-none repr a worker_slot_id lane_id h =
      surface_unless (same_surfaces (write_sets repr a worker_slot_id lane_id)) _ _ _ h

  required_path_findings-none :
      (write_paths : List Text) (path : Text) (c : PathActionConstraint)
      → required_path_findings write_paths ((path, c) ∷ []) ≡ []
      → mem_text path write_paths ≡ true
  unfolding required_path_findings
  required_path_findings-none write_paths path c h = ground (arith, h)

  -- An anchor without findings: the contract has none either, the anchor's document requires one
  -- constraint, which is the one that worker, claim and route agree on and whose path is in their
  -- common write surface, and that surface covers no protected path.
  pub validate_required_anchor-IsAnchored :
      (upper : Text → Text) (repr : Value → Text) (a : Authority)
      (worker_slot_id lane_id route_file file : Text) (doc : Option Mapping)
      → (validate_required_anchor fnmatchcase upper repr a worker_slot_id lane_id route_file file
          doc).findings
        ≡ []
      → IsAnchored
          (validate_required_anchor fnmatchcase upper repr a worker_slot_id lane_id route_file file
            doc)
          (validate_contract fnmatchcase upper repr a worker_slot_id lane_id route_file)
          (write_sets repr a worker_slot_id lane_id)
  unfolding validate_required_anchor
  validate_required_anchor-IsAnchored upper repr a worker_slot_id lane_id route_file file doc h =
      let contract = validate_contract fnmatchcase upper repr a worker_slot_id lane_id route_file in
      let required = load_required_contract upper file doc in
      let surface = load_common_write_surface repr a worker_slot_id lane_id in
      let f1 = raise_action (has_any contract.findings) base_contract_invalid in
      let f2 = f1 ++ anchor_findings required in
      let f3 = f2 ++ mismatch_findings file contract.constraints (anchored required) in
      let f4 = f3 ++ surface.1 in
      let f5 = f4 ++ required_path_findings surface.0 (anchored required) in
      let h5 =
        (append-empty f5 (protected_findings fnmatchcase surface.0 (protected_paths_of required))).0
          h in
      let h4 = (append-empty f4 (required_path_findings surface.0 (anchored required))).0 h5.0 in
      let h3 = (append-empty f3 surface.1).0 h4.0 in
      let h2 =
        (append-empty f2 (mismatch_findings file contract.constraints (anchored required))).0
          h3.0 in
      let h1 = (append-empty f1 (anchor_findings required)).0 h2.0 in
      let base = (raise_action-empty (has_any contract.findings) base_contract_invalid).0 h1.0 in
      let entry =
        one_entry (anchored required)
          (expected_one upper file doc contract.constraints required refl h2.1) in
      record {
        sound = has_any-none contract.findings base;
        path = entry.0;
        constraint = entry.1;
        one = entry.2;
        agrees = mismatch_findings-none file contract.constraints (anchored required) h2.1;
        surface = load_common_write_surface-none repr a worker_slot_id lane_id h3.1;
        listed =
            required_path_findings-none surface.0 entry.0 entry.1
              (ap (λ e. required_path_findings surface.0 e) (sym entry.2) ∙ h4.1);
        unwritable = protected_findings-none surface.0 (protected_paths_of required) h5.1;
      }
