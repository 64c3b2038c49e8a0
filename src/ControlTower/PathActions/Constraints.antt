-- ===== src/ControlTower/PathActions/Constraints.antt =====
-- path_action_constraints.py: the constraints and the write paths that a source lists.
use second_brain_coordinatio.Prelude.{
  ℕ, suc, Text, codes, Bool, Option, none, some, List, [], ◌∷◌, ◌++◌, ◌==◌, ◌&&◌, not,
  if◌then◌else◌, any, all, select, length, text_eq, mem_text, map, Dict, lookup, is_some, Result,
  ok, err, ◌>>=◌, ◌>>◌, raise_if,
}
use second_brain_coordinatio.Kernel.Canonical.Json.{Value, null, str, arr, sort_items}
use second_brain_coordinatio.Broker.Models.{is_hex}
use second_brain_coordinatio.Broker.WritePaths.{strip}
use second_brain_coordinatio.ControlTower.Values.{
  Mapping, get, mapping_of, list_of, obj_of, texts_value, sorted_set,
}
use second_brain_coordinatio.ControlTower.PathActions.Patterns.{norm_path, has_wildcard}
use second_brain_coordinatio.ControlTower.PathActions.Findings.{
  PathActionConstraint, ActionFinding, constraints_not_list, constraint_not_mapping,
  constraint_path_invalid, constraint_not_exact, allowed_actions_invalid, unknown_action,
  baseline_sha_invalid, final_state_invalid, final_state_without_baseline, duplicate_path,
  write_paths_invalid,
}

-- `ALLOWED_ACTIONS` and `ALLOWED_FINAL_STATES`
abbrev pub allowed_action_names : List Text
allowed_action_names = codes "CREATE" ∷ codes "MODIFY" ∷ codes "DELETE" ∷ []

abbrev pub allowed_final_states : List Text
allowed_final_states = codes "PRESENT" ∷ codes "ABSENT" ∷ []

-- The texts of a list in which each item is a text.
unfoldable pub texts_of : List Value → Option (List Text)
texts_of [] = some []
texts_of (str t ∷ vs) = elim (texts_of vs) [ none ↦ none | some ts ↦ some (t ∷ ts) ]
texts_of (_ ∷ vs) = none

-- `_HEX40.fullmatch(text)`
unfoldable pub is_hex40 : Text → Bool
is_hex40 text = (length text == 40) && all is_hex text

abbrev pub Parsed : Type 0
Parsed = Dict PathActionConstraint × List ActionFinding

unfoldable pub add_constraint : Text → Parsed → Result ActionFinding PathActionConstraint → Parsed
add_constraint source (result, findings) (err finding) = (result, findings ++ finding ∷ [])
add_constraint source (result, findings) (ok constraint) =
    if is_some (lookup constraint.path result)
    then (result, findings ++ duplicate_path source constraint.path ∷ [])
    else (result ++ (constraint.path, constraint) ∷ [], findings)

module _ (upper : Text → Text) where
  unfoldable pub path_field : Text → ℕ → Value → Result ActionFinding Text
  path_field source index (str path) = do
    raise_if (text_eq (strip path) []) (constraint_path_invalid source index)
    raise_if (has_wildcard (norm_path path)) (constraint_not_exact source index)
    ok (norm_path path)
  path_field source index _ = err (constraint_path_invalid source index)

  unfoldable pub normalized_actions : List Text → List Text
  normalized_actions actions =
      sorted_set (map (λ a. upper (strip a)) (select (λ a. not (text_eq (strip a) [])) actions))

  unfoldable pub actions_of : Text → ℕ → Option (List Text) → Result ActionFinding (List Text)
  actions_of source index none = err (allowed_actions_invalid source index)
  actions_of source index (some []) = err (allowed_actions_invalid source index)
  actions_of source index (some (action ∷ more)) = do
    raise_if (any (λ a. not (mem_text a allowed_action_names)) (normalized_actions (action ∷ more)))
        (unknown_action source index)
    ok (normalized_actions (action ∷ more))

  unfoldable pub actions_field : Text → ℕ → Value → Result ActionFinding (List Text)
  actions_field source index (arr xs) = actions_of source index (texts_of (list_of xs))
  actions_field source index _ = err (allowed_actions_invalid source index)

  unfoldable pub final_state_field : Text → ℕ → Value → Result ActionFinding Text
  final_state_field source index (str state) = do
    raise_if (not (mem_text (upper state) allowed_final_states)) (final_state_invalid source index)
    ok (upper state)
  final_state_field source index _ = err (final_state_invalid source index)

  -- The baseline and the final state, which come together or not at all.
  unfoldable pub transition_fields :
      Text → ℕ → Value → Value → Result ActionFinding (Option Text × Option Text)
  transition_fields source index null null = ok (none, none)
  transition_fields source index null _ = err (final_state_without_baseline source index)
  transition_fields source index (str baseline) final_state = do
    raise_if (not (is_hex40 baseline)) (baseline_sha_invalid source index)
    state ← final_state_field source index final_state
    ok (some baseline, some state)
  transition_fields source index _ _ = err (baseline_sha_invalid source index)

  -- The body of the loop of `_parse_constraints`, up to the test for a duplicate.
  unfoldable pub constraint_of :
      Text → ℕ → Option Mapping → Result ActionFinding PathActionConstraint
  constraint_of source index none = err (constraint_not_mapping source index)
  constraint_of source index (some item) = do
    path ← path_field source index (get item (codes "path"))
    actions ← actions_field source index (get item (codes "allowed_actions"))
    transition ←
        transition_fields source index (get item (codes "transition_baseline_sha"))
          (get item (codes "required_final_state"))
    ok (record {
      path = path;
      allowed_actions = actions;
      transition_baseline_sha = transition.0;
      required_final_state = transition.1;
    })

  unfoldable pub parse_items : Text → ℕ → Parsed → List Value → Parsed
  parse_items source index parsed [] = parsed
  parse_items source index parsed (item ∷ items) =
      parse_items source (suc index)
        (add_constraint source parsed (constraint_of source index (mapping_of item))) items

  -- `_parse_constraints`
  unfoldable pub parse_constraints : Value → Text → Parsed
  parse_constraints null source = ([], [])
  parse_constraints (arr xs) source = parse_items source 0 ([], []) (list_of xs)
  parse_constraints _ source = ([], constraints_not_list source ∷ [])

unfoldable pub normal_paths : Text → Option (List Text) → List Text × List ActionFinding
normal_paths source none = ([], write_paths_invalid source ∷ [])
normal_paths source (some paths) = (map norm_path paths, [])

-- `_string_paths`
unfoldable pub string_paths : Value → Text → List Text × List ActionFinding
string_paths (arr xs) source = normal_paths source (texts_of (list_of xs))
string_paths _ source = ([], write_paths_invalid source ∷ [])

abbrev pub text_or_none : Option Text → Value
text_or_none none = null
text_or_none (some t) = str t

unfoldable pub constraint_value : PathActionConstraint → Value
constraint_value constraint = obj_of (
    (codes "allowed_actions", texts_value constraint.allowed_actions)
    ∷ (codes "transition_baseline_sha", text_or_none constraint.transition_baseline_sha)
    ∷ (codes "required_final_state", text_or_none constraint.required_final_state)
    ∷ [])

-- `_canonical_constraint_map`
unfoldable pub canonical_constraint_map : Dict PathActionConstraint → Mapping
canonical_constraint_map constraints =
    map (λ entry. (entry.0, constraint_value entry.1)) (sort_items constraints)
