-- ===== src/ControlTower/PathActions/Sound.antt =====
-- What a contract and an anchor without findings guarantee: lemmas on `validate_contract` and
-- `validate_required_anchor`.
use second_brain_coordinatio.Prelude.{
  Text, Bool, true, Option, none, some, List, [], ◌∷◌, ◌++◌, ◌≡◌, refl, arith, not, text_eq_sound,
  All, is_some,
}
use second_brain_coordinatio.Kernel.Canonical.Json.{Value, arr}
use second_brain_coordinatio.ControlTower.Values.{Mapping}
use second_brain_coordinatio.ControlTower.PathActions.Findings.{
  raise_action, write_surface_drift, constraint_drift,
}
use second_brain_coordinatio.ControlTower.PathActions.Contract.{
  Authority, Sources, texts_eq, same_surfaces, only_match, find_one, find_worker, find_claim,
  route_of, route_findings, read_surfaces, sorted_surfaces, read_constraints, values_of,
  findings_of, identity_drifts, same_constraints, canonical_constraints, constraint_findings,
  validate_contract,
}
use second_brain_coordinatio.ControlTower.PathActions.Lineage.{append-empty, raise_action-empty}
use second_brain_coordinatio.ControlTower.PathActions.Surface.{
  IsGuarded, constraint_findings-IsGuarded,
}

texts_eq_sound : (ts us : List Text) → texts_eq ts us ≡ true → ts ≡ us
unfolding texts_eq
texts_eq_sound [] [] h = refl
texts_eq_sound [] (u ∷ us) h = cc
texts_eq_sound (t ∷ ts) [] h = cc
texts_eq_sound (t ∷ ts) (u ∷ us) h =
    let first : t ≡ u = text_eq_sound t u (ground (arith, h)) in
    let rest : ts ≡ us = texts_eq_sound ts us (ground (arith, h)) in rw (first, rest) refl

only_match-found :
    (key value source : Text) (items : List Mapping)
    → (only_match key value source items).1 ≡ []
    → is_some (only_match key value source items).0 ≡ true
unfolding only_match
only_match-found key value source [] h = cc
only_match-found key value source (item ∷ []) h = refl
only_match-found key value source (item ∷ other ∷ items) h = cc

find_one-found :
    (repr : Value → Text) (items : Value) (key value source : Text)
    → (find_one repr items key value source).1 ≡ []
    → is_some (find_one repr items key value source).0 ≡ true
unfolding find_one
find_one-found repr (arr xs) key value source h = only_match-found key value source _ h
find_one-found repr _ key value source h = cc

-- The write paths of the three sources, each sorted.
abbrev pub write_sets : (Value → Text) → Authority → Text → Text → Sources (List Text)
write_sets repr a worker_slot_id lane_id = sorted_surfaces (
    read_surfaces (find_worker repr a worker_slot_id).0 (find_claim repr a lane_id).0
      (route_of a.route_doc))

module _ (fnmatchcase : Text → Text → Bool) (upper : Text → Text) (repr : Value → Text) where
  -- What a contract without findings has established.
  pub record IsAgreed (a : Authority) (worker_slot_id lane_id route_file : Text) : Type 0 where
    pub one_worker : is_some (find_worker repr a worker_slot_id).0 ≡ true
    pub one_claim : is_some (find_claim repr a lane_id).0 ≡ true
    pub has_route : is_some a.route_doc ≡ true
    pub claim_agrees :
        (write_sets repr a worker_slot_id lane_id).worker_registry
        ≡ (write_sets repr a worker_slot_id lane_id).work_claim
    pub route_agrees :
        (write_sets repr a worker_slot_id lane_id).worker_registry
        ≡ (write_sets repr a worker_slot_id lane_id).route
    pub guarded :
        All
          (IsGuarded fnmatchcase (write_sets repr a worker_slot_id lane_id))
          (validate_contract fnmatchcase upper repr a worker_slot_id lane_id route_file).constraints

  route_findings-found :
      (route_file : Text) (route : Option Mapping)
      → route_findings route_file route ≡ []
      → is_some route ≡ true
  route_findings-found route_file none h = cc
  route_findings-found route_file (some route) h = refl

  -- A contract without findings: worker, work claim and route exist, the write paths that the three
  -- list are the same, and each constrained path is listed there, has an allowed action, and is
  -- covered by no other write path, not by a pattern either.
  pub validate_contract-IsAgreed :
      (a : Authority) (worker_slot_id lane_id route_file : Text)
      → (validate_contract fnmatchcase upper repr a worker_slot_id lane_id route_file).findings ≡ []
      → IsAgreed a worker_slot_id lane_id route_file
  unfolding validate_contract find_worker find_claim same_surfaces
  validate_contract-IsAgreed a worker_slot_id lane_id route_file h =
      let worker = find_worker repr a worker_slot_id in
      let claim = find_claim repr a lane_id in
      let route = route_of a.route_doc in
      let parsed = read_constraints upper worker.0 claim.0 route in
      let paths = read_surfaces worker.0 claim.0 route in
      let surfaces = sorted_surfaces paths in
      let constraint_sets = values_of parsed in
      let guards =
        constraint_findings fnmatchcase surfaces (canonical_constraints constraint_sets) in
      let drifted = raise_action (not (same_constraints constraint_sets)) constraint_drift in
      let apart = raise_action (not (same_surfaces surfaces)) write_surface_drift in
      let drifts = identity_drifts worker.0 claim.0 route in
      let missing = route_findings route_file a.route_doc in
      let f2 = worker.1 ++ claim.1 in
      let f3 = f2 ++ missing in
      let f4 = f3 ++ findings_of parsed in
      let f5 = f4 ++ findings_of paths in
      let f6 = f5 ++ drifts in
      let f7 = f6 ++ apart in
      let f8 = f7 ++ drifted in
      let h8 = (append-empty f8 guards).0 h in
      let h7 = (append-empty f7 drifted).0 h8.0 in
      let h6 = (append-empty f6 apart).0 h7.0 in
      let h5 = (append-empty f5 drifts).0 h6.0 in
      let h4 = (append-empty f4 (findings_of paths)).0 h5.0 in
      let h3 = (append-empty f3 (findings_of parsed)).0 h4.0 in
      let h2 = (append-empty f2 missing).0 h3.0 in
      let h1 = (append-empty worker.1 claim.1).0 h2.0 in
      let same = (raise_action-empty (not (same_surfaces surfaces)) write_surface_drift).0 h6.1 in
      record {
        one_worker = find_one-found repr _ _ _ _ h1.0;
        one_claim = find_one-found repr _ _ _ _ h1.1;
        has_route = route_findings-found route_file a.route_doc h2.1;
        claim_agrees =
            texts_eq_sound surfaces.worker_registry surfaces.work_claim (ground (arith, same));
        route_agrees =
            texts_eq_sound surfaces.worker_registry surfaces.route (ground (arith, same));
        guarded =
            constraint_findings-IsGuarded fnmatchcase surfaces
              (canonical_constraints constraint_sets) h8.1;
      }
