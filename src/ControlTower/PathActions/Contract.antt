-- ===== src/ControlTower/PathActions/Contract.antt =====
-- path_action_constraints.py: `validate_contract`, which compares what the worker registry, the work
-- claim and the route say of a worker's write paths and of the actions on them.
use second_brain_coordinatio.Prelude.{
  Text, codes, Bool, true, false, Option, none, some, List, [], ◌∷◌, ◌++◌, ◌&&◌, not, if◌then◌else◌,
  select, length, text_eq, mem_text, Dict,
}
use second_brain_coordinatio.Kernel.Canonical.Json.{Value, null, arr}
use second_brain_coordinatio.Broker.Dumps.{dumps}
use second_brain_coordinatio.ControlTower.Values.{
  Mapping, get, mapping_of, list_of, obj_of, str_of, text_lt, canonical,
}
use second_brain_coordinatio.ControlTower.PathActions.Patterns.{pattern_covers_exact}
use second_brain_coordinatio.ControlTower.PathActions.Findings.{
  PathActionConstraint, ActionFinding, raise_action, authority_list_invalid,
  authority_identity_not_unique, route_missing, authority_identity_drift, write_surface_drift,
  constraint_drift, path_not_writable, broader_write_bypass, empty_authority,
}
use second_brain_coordinatio.ControlTower.PathActions.Constraints.{
  parse_constraints, string_paths, canonical_constraint_map,
}

-- `sorted(texts)`, with repetitions kept
unfoldable pub insert_sorted : Text → List Text → List Text
insert_sorted t [] = t ∷ []
insert_sorted t (u ∷ us) = if text_lt u t then u ∷ insert_sorted t us else t ∷ u ∷ us

unfoldable pub sort_texts : List Text → List Text
sort_texts [] = []
sort_texts (t ∷ ts) = insert_sorted t (sort_texts ts)

-- Whether two lists of texts are equal, which is whether their JSON texts are.
unfoldable pub texts_eq : List Text → List Text → Bool
texts_eq [] [] = true
texts_eq [] (u ∷ us) = false
texts_eq (t ∷ ts) [] = false
texts_eq (t ∷ ts) (u ∷ us) = text_eq t u && texts_eq ts us

-- `json.dumps(value, sort_keys=True)`
abbrev pub identity_text : Value → Text
identity_text v = dumps (codes ", ") (codes ": ") v

-- `m.get(key)` of an entry, and None where there is no entry.
unfoldable pub entry_get : Option Mapping → Text → Value
entry_get none key = null
entry_get (some m) key = get m key

-- The mapping at the key, and an empty one where the value is none.
unfoldable pub sub_mapping : Mapping → Text → Mapping
sub_mapping m key = elim (mapping_of (get m key)) [ none ↦ [] | some n ↦ n ]

-- The write surfaces of the three sources, or their constraints.
pub record Sources {ℓ} (A : Type ℓ) : Type ℓ where
  pub worker_registry : A
  pub work_claim : A
  pub route : A

-- The documents that `validate_contract` loads; the route is none where its file does not exist.
pub record Authority : Type 0 where
  pub worker_doc : Mapping
  pub claims_doc : Mapping
  pub route_doc : Option Mapping

pub record Contract : Type 0 where
  pub constraints : Dict PathActionConstraint
  pub findings : List ActionFinding

unfoldable pub only_match : Text → Text → Text → List Mapping → Option Mapping × List ActionFinding
only_match key value source (item ∷ []) = (some item, [])
only_match key value source items =
    (none, authority_identity_not_unique source key value (length items) ∷ [])

module _ (repr : Value → Text) where
  -- The items that are mappings with the value at the key.
  unfoldable pub matches : Text → Text → List Value → List Mapping
  matches key value [] = []
  matches key value (v ∷ vs) =
      let rest = matches key value vs in
      elim (mapping_of v) [
        | none ↦ rest
        | some item ↦ if text_eq (str_of repr (get item key)) value then item ∷ rest else rest
      ]

  -- `_find_one`
  unfoldable pub find_one : Value → Text → Text → Text → Option Mapping × List ActionFinding
  find_one (arr xs) key value source = only_match key value source (matches key value (list_of xs))
  find_one _ key value source = (none, authority_list_invalid source ∷ [])

  unfoldable pub find_worker : Authority → Text → Option Mapping × List ActionFinding
  find_worker a worker_slot_id =
      find_one (get a.worker_doc (codes "worker_slots")) (codes "worker_slot_id") worker_slot_id
        (codes "worker_registry")

  unfoldable pub find_claim : Authority → Text → Option Mapping × List ActionFinding
  find_claim a lane_id =
      find_one (get a.claims_doc (codes "claims")) (codes "lane_id") lane_id (codes "work_claim")

unfoldable pub drift : Text → Value → Value → Value → List ActionFinding
drift field worker claim route =
    raise_action
      (not (
        text_eq (identity_text worker) (identity_text claim)
        && text_eq (identity_text worker) (identity_text route)))
      (authority_identity_drift field)

-- The loop over `identity_checks`, for a worker and a claim that were found.
unfoldable pub identity_checks : Mapping → Mapping → Mapping → List ActionFinding
identity_checks worker claim route =
    let claim_binding = sub_mapping claim (codes "route_binding") in
    let route_binding = sub_mapping route (codes "binding") in
    let route_executor = sub_mapping route (codes "executor") in
    drift (codes "worker_slot_id") (get worker (codes "worker_slot_id"))
      (get claim (codes "worker_slot_id")) (get route_executor (codes "worker_slot_id"))
    ++ drift (codes "task_id") (get worker (codes "task_id")) (get claim_binding (codes "task_id"))
        (get route_binding (codes "task_id"))
    ++ drift (codes "route_epoch") (get worker (codes "route_epoch"))
        (get claim_binding (codes "route_epoch")) (get route_binding (codes "route_epoch"))
    ++ drift (codes "issue") (get worker (codes "issue")) (get claim_binding (codes "issue"))
        (get route_binding (codes "issue"))
    ++ drift (codes "pr") (get worker (codes "pr")) (get claim_binding (codes "pr"))
        (get route_binding (codes "implementation_pr"))
    ++ drift (codes "branch") (get worker (codes "branch")) (get claim_binding (codes "branch"))
        (get route_binding (codes "implementation_branch"))

unfoldable pub identity_drifts : Option Mapping → Option Mapping → Mapping → List ActionFinding
identity_drifts (some worker) (some claim) route = identity_checks worker claim route
identity_drifts _ _ route = []

unfoldable pub same_surfaces : Sources (List Text) → Bool
same_surfaces s = texts_eq s.worker_registry s.work_claim && texts_eq s.worker_registry s.route

unfoldable pub constraints_text : Dict PathActionConstraint → Text
constraints_text constraints = canonical (obj_of (canonical_constraint_map constraints))

unfoldable pub same_constraints : Sources (Dict PathActionConstraint) → Bool
same_constraints s =
    text_eq (constraints_text s.worker_registry) (constraints_text s.work_claim)
    && text_eq (constraints_text s.worker_registry) (constraints_text s.route)

-- The first of the three that is not empty.
unfoldable pub canonical_constraints :
    Sources (Dict PathActionConstraint) → Dict PathActionConstraint
canonical_constraints s = elim s.worker_registry [
  | [] ↦ elim s.work_claim [ [] ↦ s.route | c ∷ cs ↦ c ∷ cs ]
  | c ∷ cs ↦ c ∷ cs
]

-- The truth of a list.
abbrev pub has_any {ℓ} : {A : Type ℓ} → List A → Bool
has_any [] = false
has_any (t ∷ ts) = true

abbrev pub route_of : Option Mapping → Mapping
route_of none = []
route_of (some route) = route

abbrev pub route_findings : Text → Option Mapping → List ActionFinding
route_findings route_file none = route_missing route_file ∷ []
route_findings route_file (some route) = []

-- The write paths of each source, and the findings on them.
unfoldable pub read_surfaces :
    Option Mapping → Option Mapping → Mapping → Sources (List Text × List ActionFinding)
read_surfaces worker claim route = record {
  worker_registry = string_paths (entry_get worker (codes "write_paths")) (codes "worker_registry");
  work_claim = string_paths (entry_get claim (codes "write_paths")) (codes "work_claim");
  route =
      string_paths (get (sub_mapping route (codes "write_scope")) (codes "implementation"))
        (codes "route");
}

unfoldable pub sorted_surfaces : Sources (List Text × List ActionFinding) → Sources (List Text)
sorted_surfaces s = record {
  worker_registry = sort_texts s.worker_registry.0;
  work_claim = sort_texts s.work_claim.0;
  route = sort_texts s.route.0;
}

abbrev pub values_of {ℓ κ} : {A : Type ℓ} {B : Type κ} → Sources (A × B) → Sources A
values_of s = record {
  worker_registry = s.worker_registry.0;
  work_claim = s.work_claim.0;
  route = s.route.0;
}

abbrev pub findings_of {ℓ} : {A : Type ℓ} → Sources (A × List ActionFinding) → List ActionFinding
findings_of s = s.worker_registry.1 ++ s.work_claim.1 ++ s.route.1

unfoldable pub read_constraints :
    (Text → Text)
    → Option Mapping
    → Option Mapping
    → Mapping
    → Sources (Dict PathActionConstraint × List ActionFinding)
read_constraints upper worker claim route = record {
  worker_registry =
      parse_constraints upper (entry_get worker (codes "path_action_constraints"))
        (codes "worker_registry");
  work_claim =
      parse_constraints upper (entry_get claim (codes "path_action_constraints"))
        (codes "work_claim");
  route =
      parse_constraints upper
        (get (sub_mapping route (codes "write_scope")) (codes "exact_action_constraints"))
        (codes "route");
}

module _ (fnmatchcase : Text → Text → Bool) where
  -- The patterns, other than the path itself, that cover it.
  unfoldable pub broader_paths : Text → List Text → List Text
  broader_paths exact_path =
      select (λ p. not (text_eq p exact_path) && pattern_covers_exact fnmatchcase p exact_path)

  unfoldable pub surface_findings : Text → List Text → Text → List ActionFinding
  surface_findings source paths exact_path =
      raise_action (not (mem_text exact_path paths)) (path_not_writable source exact_path)
      ++ raise_action (has_any (broader_paths exact_path paths))
          (broader_write_bypass source exact_path)

  -- The loop over the constraints.
  unfoldable pub constraint_findings :
      Sources (List Text) → Dict PathActionConstraint → List ActionFinding
  constraint_findings s [] = []
  constraint_findings s ((path, constraint) ∷ constraints) =
      surface_findings (codes "worker_registry") s.worker_registry path
      ++ surface_findings (codes "work_claim") s.work_claim path
      ++ surface_findings (codes "route") s.route path
      ++ raise_action (not (has_any constraint.allowed_actions)) (empty_authority path)
      ++ constraint_findings s constraints

  module _ (upper : Text → Text) (repr : Value → Text) where
    -- `validate_contract`
    unfoldable pub validate_contract : Authority → Text → Text → Text → Contract
    validate_contract a worker_slot_id lane_id route_file =
        let worker = find_worker repr a worker_slot_id in
        let claim = find_claim repr a lane_id in
        let route = route_of a.route_doc in
        let parsed = read_constraints upper worker.0 claim.0 route in
        let paths = read_surfaces worker.0 claim.0 route in
        let write_sets = sorted_surfaces paths in
        let constraint_sets = values_of parsed in
        record {
          constraints = canonical_constraints constraint_sets;
          findings =
              worker.1
              ++ claim.1
              ++ route_findings route_file a.route_doc
              ++ findings_of parsed
              ++ findings_of paths
              ++ identity_drifts worker.0 claim.0 route
              ++ raise_action (not (same_surfaces write_sets)) write_surface_drift
              ++ raise_action (not (same_constraints constraint_sets)) constraint_drift
              ++ constraint_findings write_sets (canonical_constraints constraint_sets);
        }
