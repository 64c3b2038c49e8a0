-- ===== src/ControlTower/PathActions/Parsed.antt =====
-- The constraints that a source yields: lemmas on `parse_constraints`.
use second_brain_coordinatio.Prelude.{
  ℕ, suc, Text, codes, Bool, true, false, Option, none, some, List, [], ◌∷◌, ◌++◌, ◌≡◌, ◌∙◌, refl,
  sym, ap, arith, not, if◌then◌else◌, any, text_eq, text_eq_iff, mem_text, map, All, All-snoc, Dict,
  lookup, is_some, Result, ok, err, >>=-eq-ok, raise_if-ok, ok_injective,
}
use mathlib.Core.Path.{subst}
use second_brain_coordinatio.Kernel.Canonical.Json.{Value, null, str, arr}
use second_brain_coordinatio.Broker.WritePaths.{strip}
use second_brain_coordinatio.ControlTower.Values.{Mapping, get, mapping_of, list_of}
use second_brain_coordinatio.ControlTower.Lifecycle.Registry.Distinct.{Distinct, Distinct-snoc}
use second_brain_coordinatio.ControlTower.PathActions.Patterns.{norm_path, has_wildcard}
use second_brain_coordinatio.ControlTower.PathActions.Findings.{PathActionConstraint, ActionFinding}
use second_brain_coordinatio.ControlTower.PathActions.Constraints.{
  Parsed, allowed_action_names, allowed_final_states, is_hex40, path_field, normalized_actions,
  actions_of, actions_field, final_state_field, transition_fields, constraint_of, add_constraint,
  parse_items, parse_constraints, texts_of,
}

-- A baseline and a final state come together: the one is a commit id, the other PRESENT or ABSENT.
abbrev pub Paired : Option Text → Option Text → Type 0
Paired none none = Unit
Paired none (some state) = ⊥
Paired (some baseline) none = ⊥
Paired (some baseline) (some state) =
    (is_hex40 baseline ≡ true) × (mem_text state allowed_final_states ≡ true)

-- A constraint that the rest of the program can rely on.
pub record IsWellFormed (path : Text) (constraint : PathActionConstraint) : Type 0 where
  pub key : constraint.path ≡ path
  pub exact : has_wildcard path ≡ false
  pub known : any (λ a. not (mem_text a allowed_action_names)) constraint.allowed_actions ≡ false
  pub paired : Paired constraint.transition_baseline_sha constraint.required_final_state

module _ (upper : Text → Text) (source : Text) (index : ℕ) where
  path_field-exact :
      (v : Value) (path : Text)
      → path_field upper source index v ≡ ok path
      → has_wildcard path ≡ false
  unfolding path_field
  path_field-exact (str s) path h =
      let named = raise_if-ok (text_eq (strip s) []) _ _ h in
      let spelled = raise_if-ok (has_wildcard (norm_path s)) _ _ named.1 in
      ap has_wildcard (sym (ok_injective spelled.1)) ∙ spelled.0
  path_field-exact _ path h = cc

  actions_of-known :
      (given : Option (List Text)) (actions : List Text)
      → actions_of upper source index given ≡ ok actions
      → any (λ a. not (mem_text a allowed_action_names)) actions ≡ false
  unfolding actions_of
  actions_of-known none actions h = cc
  actions_of-known (some []) actions h = cc
  actions_of-known (some (a ∷ more)) actions h =
      let given =
        raise_if-ok
          (any (λ b. not (mem_text b allowed_action_names)) (normalized_actions upper (a ∷ more))) _
          _ h in
      ap (λ l. any (λ b. not (mem_text b allowed_action_names)) l) (sym (ok_injective given.1))
      ∙ given.0

  actions_field-known :
      (v : Value) (actions : List Text)
      → actions_field upper source index v ≡ ok actions
      → any (λ a. not (mem_text a allowed_action_names)) actions ≡ false
  unfolding actions_field
  actions_field-known (arr xs) actions h = actions_of-known (texts_of (list_of xs)) actions h
  actions_field-known _ actions h = cc

  final_state_field-allowed :
      (v : Value) (state : Text)
      → final_state_field upper source index v ≡ ok state
      → mem_text state allowed_final_states ≡ true
  unfolding final_state_field
  final_state_field-allowed (str s) state h =
      let known = raise_if-ok (not (mem_text (upper s) allowed_final_states)) _ _ h in
      ap (λ t. mem_text t allowed_final_states) (sym (ok_injective known.1))
      ∙ ground (arith, known.0)
  final_state_field-allowed _ state h = cc

  transition_fields-Paired :
      (v w : Value) (t : Option Text × Option Text)
      → transition_fields upper source index v w ≡ ok t
      → Paired t.0 t.1
  unfolding transition_fields
  transition_fields-Paired null null t h =
      subst (λ (u : Option Text × Option Text). Paired u.0 u.1) (ok_injective h) tt
  transition_fields-Paired null _ t h = cc
  transition_fields-Paired (str baseline) w t h =
      let commit = raise_if-ok (not (is_hex40 baseline)) _ _ h in
      let state = >>=-eq-ok (final_state_field upper source index w) _ commit.1 in
      subst (λ (u : Option Text × Option Text). Paired u.0 u.1) (ok_injective state.2)
        (ground (arith, commit.0), final_state_field-allowed w state.0 state.1)
  transition_fields-Paired _ w t h = cc

  constraint_of-IsWellFormed :
      (item : Option Mapping) (c : PathActionConstraint)
      → constraint_of upper source index item ≡ ok c
      → IsWellFormed c.path c
  unfolding constraint_of
  constraint_of-IsWellFormed none c h = cc
  constraint_of-IsWellFormed (some item) c h =
      let path = >>=-eq-ok (path_field upper source index (get item (codes "path"))) _ h in
      let actions =
        >>=-eq-ok (actions_field upper source index (get item (codes "allowed_actions"))) _
          path.2 in
      let transition =
        >>=-eq-ok
          (transition_fields upper source index (get item (codes "transition_baseline_sha"))
            (get item (codes "required_final_state")))
          _ actions.2 in
      subst (λ (d : PathActionConstraint). IsWellFormed d.path d) (ok_injective transition.2)
        (record {
          key = refl;
          exact = path_field-exact _ path.0 path.1;
          known = actions_field-known _ actions.0 actions.1;
          paired = transition_fields-Paired _ _ transition.0 transition.1;
        })

abbrev pub paths_of : Dict PathActionConstraint → List Text
paths_of = map (λ entry. entry.0)

-- The constraints of a source: each is well-formed and stands under its path, once.
pub record AreWellFormed (constraints : Dict PathActionConstraint) : Type 0 where
  pub each : All (λ (e : Text × PathActionConstraint). IsWellFormed e.0 e.1) constraints
  pub once : Distinct (paths_of constraints)

mem_text-paths_of :
    (path : Text) (constraints : Dict PathActionConstraint)
    → mem_text path (paths_of constraints) ≡ is_some (lookup path constraints)
unfolding lookup
mem_text-paths_of path [] = refl
mem_text-paths_of path ((p, c) ∷ constraints) =
    ground (arith, mem_text-paths_of path constraints, text_eq_iff path p, text_eq_iff p path)

paths_of-snoc :
    (constraints : Dict PathActionConstraint) (e : Text × PathActionConstraint)
    → paths_of (constraints ++ e ∷ []) ≡ paths_of constraints ++ e.0 ∷ []
paths_of-snoc [] e = refl
paths_of-snoc (d ∷ constraints) e = ap (λ ps. d.0 ∷ ps) (paths_of-snoc constraints e)

module _ (upper : Text → Text) (source : Text) where
  add_new :
      (seen : Bool) (result : Dict PathActionConstraint) (c : PathActionConstraint)
      → seen ≡ is_some (lookup c.path result)
      → AreWellFormed result
      → IsWellFormed c.path c
      → AreWellFormed (if seen then result else result ++ (c.path, c) ∷ [])
  add_new true result c e w h = w
  add_new false result c e w h = record {
    each = All-snoc _ result (AreWellFormed.each w) h;
    once = subst Distinct (sym (paths_of-snoc result (c.path, c))) (
        Distinct-snoc (paths_of result) c.path (AreWellFormed.once w)
          (mem_text-paths_of c.path result ∙ sym e));
  }

  result_if :
      (seen : Bool) (result new : Dict PathActionConstraint) (old findings : List ActionFinding)
      → let parsed : Parsed = if seen then (result, findings) else (new, old) in
        parsed.0 ≡ (if seen then result else new)
  result_if true result new old findings = refl
  result_if false result new old findings = refl

  add_constraint-AreWellFormed :
      (parsed : Parsed) (item : Result ActionFinding PathActionConstraint)
      → AreWellFormed parsed.0
      → ((c : PathActionConstraint) → item ≡ ok c → IsWellFormed c.path c)
      → AreWellFormed (add_constraint source parsed item).0
  unfolding add_constraint
  add_constraint-AreWellFormed (result, findings) (err finding) w h = w
  add_constraint-AreWellFormed (result, findings) (ok c) w h =
      let seen = is_some (lookup c.path result) in
      subst AreWellFormed (sym (result_if seen result (result ++ (c.path, c) ∷ []) findings _))
        (add_new seen result c refl w (h c refl))

  parse_items-AreWellFormed :
      (index : ℕ) (parsed : Parsed) (items : List Value)
      → AreWellFormed parsed.0
      → AreWellFormed (parse_items upper source index parsed items).0
  unfolding parse_items
  parse_items-AreWellFormed index parsed [] w = w
  parse_items-AreWellFormed index parsed (item ∷ items) w =
      parse_items-AreWellFormed (suc index) _ items (
        add_constraint-AreWellFormed parsed (constraint_of upper source index (mapping_of item)) w
          (constraint_of-IsWellFormed upper source index (mapping_of item)))

-- Whatever a source lists, the constraints that are kept are well-formed: the path has no wildcard,
-- the actions are among CREATE, MODIFY and DELETE, a baseline is a commit id and comes with the
-- final state PRESENT or ABSENT, and each path has one constraint.
pub parse_constraints-AreWellFormed :
    (upper : Text → Text) (raw : Value) (source : Text)
    → AreWellFormed (parse_constraints upper raw source).0
unfolding parse_constraints
parse_constraints-AreWellFormed upper (arr xs) source =
    parse_items-AreWellFormed upper source 0 ([], []) (list_of xs) (record { each = tt; once = tt })
parse_constraints-AreWellFormed upper _ source = record { each = tt; once = tt }
