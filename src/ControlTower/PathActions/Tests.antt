-- ===== src/ControlTower/PathActions/Tests.antt =====
-- A cleanup of one path: the worker registry, the work claim, the route, the anchor and the diff.
use second_brain_coordinatio.Prelude.{
  ◌-◌, ok, Text, codes, Bool, true, false, some, [], ◌∷◌, ◌++◌, ◌≡◌, ◌↔◌, refl, map, leb, ◌&&◌,
  if◌then◌else◌, text_eq, All, lookup, strip_suffix,
}
use second_brain_coordinatio.Kernel.Canonical.Json.{
  Value, bool, str, arr, hex_digit, escape_char, jcs_escape, emit, jcs_number, text_le, insert_item,
  sort_items, quoted, join_fields, join_items, jcs_dumps, dumps_items, dumps_fields,
}
use second_brain_coordinatio.Broker.Dumps.{
  unicode_escape, ascii_char, ascii_text, ascii_quoted, join, dump_pairs, dumps, list_texts,
}
use second_brain_coordinatio.Broker.WritePaths.{is_space, lstrip, rstrip, strip, split_segments}
use second_brain_coordinatio.Broker.Models.{rstrip_slash}
use second_brain_coordinatio.ControlTower.Values.{
  Mapping, get, is_false, dict_of, fields_of, obj_of, mapping_of, list_of, items_of, texts_value,
  str_of, text_lt, insert_text, sorted_set, canonical,
}
use second_brain_coordinatio.ControlTower.PathActions.Findings.{
  PathActionConstraint, diff_violation, outside_write_surface, protected_root_changed,
  delete_transition_not_exact, duplicate_path,
}
use second_brain_coordinatio.ControlTower.PathActions.Patterns.{
  drop_dot_slashes, posix_root, posix_path, norm_path, has_wildcard, covers_normal,
  pattern_covers_exact,
}
use second_brain_coordinatio.ControlTower.PathActions.Constraints.{
  Parsed, texts_of, is_hex40, add_constraint, path_field, normalized_actions, actions_of,
  actions_field, final_state_field, transition_fields, constraint_of, parse_items,
  parse_constraints, normal_paths, string_paths, constraint_value, canonical_constraint_map,
}
use second_brain_coordinatio.ControlTower.PathActions.Diff.{
  Entry, Git, split_by, is_line_break, entry_of_line, entries_of_lines, git_diff_entries,
  is_one_delete, relevant_entries, derived_action, path_violations, validate_diff_actions,
  validate_diff, state_findings, transition_findings, lineage_of, validate_transition_lineage,
}
use second_brain_coordinatio.ControlTower.PathActions.Contract.{
  Authority, insert_sorted, sort_texts, texts_eq, entry_get, sub_mapping, only_match, matches,
  find_one, find_worker, find_claim, drift, identity_checks, identity_drifts, same_surfaces,
  constraints_text, same_constraints, canonical_constraints, read_surfaces, sorted_surfaces,
  read_constraints, broader_paths, surface_findings, constraint_findings, validate_contract,
}
use second_brain_coordinatio.ControlTower.PathActions.Policy.{
  named_paths, protected_of, anchored_constraint, protected_field, not_one, policy_of, required_of,
  amended, load_required_contract, load_common_write_surface, mismatch_findings,
  required_path_findings, covering_paths, protected_findings, validate_required_anchor,
  changed_path_findings, entry_findings, validate_full_diff_write_surface,
}
use second_brain_coordinatio.ControlTower.PathActions.Main.{
  PolicyArgs, ConstraintsArgs, raw_constraint, constraints_from_contract, passed_constraints,
  constraints_main, policy_main,
}
use second_brain_coordinatio.ControlTower.PathActions.Gate.{IsGated, policy_main-IsGated}
use second_brain_coordinatio.ControlTower.PathActions.Checked.{
  IsChecked, constraints_main-IsChecked,
}
use second_brain_coordinatio.ControlTower.PathActions.Parsed.{
  AreWellFormed, parse_constraints-AreWellFormed,
}
use second_brain_coordinatio.ControlTower.PathActions.Lineage.{
  IsCleanup, validate_transition_lineage-IsCleanup,
}
use second_brain_coordinatio.ControlTower.PathActions.Surface.{
  IsPermitted, validate_full_diff_write_surface_iff,
}
use second_brain_coordinatio.ControlTower.PathActions.Sound.{
  IsAgreed, write_sets, validate_contract-IsAgreed,
}
use second_brain_coordinatio.ControlTower.PathActions.Anchored.{
  IsAnchored, validate_required_anchor-IsAnchored,
}

-- `str.upper` on ASCII, and stand-ins for `repr` and `fnmatchcase`.
abbrev ascii_upper : Text → Text
ascii_upper = map (λ c. if leb b'a' c && leb c b'z' then c - 32 else c)

abbrev blank : Value → Text
blank v = []

abbrev no_match : Text → Text → Bool
no_match path pattern = false

abbrev zeros : Text
zeros = codes "0000000000000000000000000000000000000000"

abbrev cleanup : Value
unfolding obj_of fields_of texts_value items_of
cleanup = obj_of (
    (codes "path", str (codes "./d/x"))
    ∷ (codes "allowed_actions", texts_value (codes "delete" ∷ []))
    ∷ (codes "transition_baseline_sha", str zeros)
    ∷ (codes "required_final_state", str (codes "absent"))
    ∷ [])

abbrev cleanups : Value
cleanups = arr (items_of (cleanup ∷ []))

abbrev surface : Value
surface = texts_value (codes "s/**" ∷ codes "d/x" ∷ [])

abbrev worker : Mapping
worker =
    (codes "worker_slot_id", str (codes "W1"))
    ∷ (codes "write_paths", surface)
    ∷ (codes "path_action_constraints", cleanups)
    ∷ []

abbrev route : Mapping
route =
    (codes "executor", obj_of ((codes "worker_slot_id", str (codes "W1")) ∷ []))
    ∷ (
      codes "write_scope",
      obj_of
          ((codes "implementation", surface) ∷ (codes "exact_action_constraints", cleanups) ∷ []),
    )
    ∷ []

abbrev authority : Authority
authority = record {
  worker_doc = (codes "worker_slots", arr (items_of (obj_of worker ∷ []))) ∷ [];
  claims_doc =
      (codes "claims", arr (items_of (obj_of ((codes "lane_id", str (codes "L1")) ∷ worker) ∷ [])))
      ∷ [];
  route_doc = some route;
}

abbrev anchor : Mapping
anchor =
    (
      codes "amendment",
      obj_of (
          (codes "exact_path", str (codes "d/x"))
          ∷ (codes "allowed_actions", texts_value (codes "DELETE" ∷ []))
          ∷ (codes "transition_baseline_sha", str zeros)
          ∷ (codes "required_final_state", str (codes "ABSENT"))
          ∷ (codes "general_s0f_write_allowed", bool false)
          ∷ (codes "runtime_workflow_write_allowed", bool false)
          ∷ (codes "protected_enforcement_paths", texts_value (codes "g/x" ∷ []))
          ∷ []),
    )
    ∷ []

-- A repository in which the baseline has the path, and a diff that deletes it and changes another.
abbrev repository : Text → Git
repository output = record {
  commit_exists = λ sha. true;
  is_ancestor = λ sha head. true;
  object_exists = λ sha path. text_eq sha zeros;
  diff_output = λ base head. output;
}

abbrev deletion : Text
deletion = b'D' ∷ 9 ∷ codes "d/x" ++ 10 ∷ b'M' ∷ 9 ∷ codes "s/a" ++ 10 ∷ []

abbrev head_sha : Text
head_sha = codes "1"

computed : Mapping → Text
unfolding raw_constraint constraints_from_contract passed_constraints constraints_main policy_main
    lookup strip_suffix hex_digit escape_char jcs_escape emit jcs_number text_le insert_item
    sort_items quoted join_fields join_items jcs_dumps dumps_items dumps_fields unicode_escape
    ascii_char ascii_text ascii_quoted join dump_pairs dumps list_texts is_space lstrip rstrip strip
    split_segments rstrip_slash get is_false dict_of fields_of obj_of mapping_of list_of items_of
    texts_value str_of text_lt insert_text sorted_set canonical drop_dot_slashes posix_root
    posix_path norm_path has_wildcard covers_normal pattern_covers_exact texts_of is_hex40
    add_constraint path_field normalized_actions actions_of actions_field final_state_field
    transition_fields constraint_of parse_items parse_constraints normal_paths string_paths
    constraint_value canonical_constraint_map split_by is_line_break entry_of_line entries_of_lines
    git_diff_entries is_one_delete relevant_entries derived_action path_violations
    validate_diff_actions validate_diff state_findings transition_findings lineage_of
    validate_transition_lineage insert_sorted sort_texts texts_eq entry_get sub_mapping only_match
    matches find_one find_worker find_claim drift identity_checks identity_drifts same_surfaces
    constraints_text same_constraints canonical_constraints read_surfaces sorted_surfaces
    read_constraints broader_paths surface_findings constraint_findings validate_contract
    named_paths protected_of anchored_constraint protected_field not_one policy_of required_of
    amended load_required_contract load_common_write_surface mismatch_findings
    required_path_findings covering_paths protected_findings validate_required_anchor
    changed_path_findings entry_findings validate_full_diff_write_surface
computed m = []

abbrev parsed : Parsed
parsed = parse_constraints ascii_upper cleanups (codes "route")

abbrev kept_constraint : PathActionConstraint
kept_constraint = record {
  path = codes "d/x";
  allowed_actions = codes "DELETE" ∷ [];
  transition_baseline_sha = some zeros;
  required_final_state = some (codes "ABSENT");
}

parsed_cleanup : parsed ≡ ((codes "d/x", kept_constraint) ∷ [], [])
unfolding computed
parsed_cleanup = refl

parsed_twice :
    (parse_constraints ascii_upper (arr (items_of (cleanup ∷ cleanup ∷ []))) (codes "route")).1
    ≡ duplicate_path (codes "route") (codes "d/x") ∷ []
unfolding computed
parsed_twice = refl

parse_constraints-AreWellFormed_example : AreWellFormed parsed.0
parse_constraints-AreWellFormed_example =
    parse_constraints-AreWellFormed ascii_upper cleanups (codes "route")

validate_transition_lineage-IsCleanup_example :
    IsCleanup ascii_upper (repository deletion) head_sha (codes "d/x") zeros kept_constraint
unfolding computed
validate_transition_lineage-IsCleanup_example =
    validate_transition_lineage-IsCleanup ascii_upper (repository deletion) head_sha []
      (codes "d/x") kept_constraint [] zeros refl refl refl

renamed_away :
    validate_transition_lineage ascii_upper
      (repository (b'R' ∷ 9 ∷ codes "d/x" ++ 9 ∷ codes "s/x" ++ 10 ∷ []))
      head_sha
      parsed.0
    ≡ diff_violation (codes "d/x") (codes "R") (codes "UNSUPPORTED")
      ∷ delete_transition_not_exact (codes "d/x") (codes "UNSUPPORTED" ∷ [])
      ∷ []
unfolding computed
renamed_away = refl

validate_full_diff_write_surface_iff_example :
    (validate_full_diff_write_surface no_match
        (repository deletion)
        zeros
        head_sha
        (codes "s/**" ∷ codes "d/x" ∷ [])
        (codes "g/x" ∷ [])
      ≡ [])
    ↔ All
        (λ (e : Entry).
          All (IsPermitted no_match (codes "s/**" ∷ codes "d/x" ∷ []) (codes "g/x" ∷ [])) e.1)
        (git_diff_entries deletion)
unfolding computed
validate_full_diff_write_surface_iff_example =
    validate_full_diff_write_surface_iff no_match (repository deletion) zeros head_sha
      (codes "s/**" ∷ codes "d/x" ∷ []) (codes "g/x" ∷ [])

outside :
    validate_full_diff_write_surface no_match
      (repository deletion)
      zeros
      head_sha
      (codes "d/x" ∷ [])
      (codes "s/a" ∷ [])
    ≡ protected_root_changed (codes "M") (codes "s/a")
      ∷ outside_write_surface (codes "M") (codes "s/a")
      ∷ []
unfolding computed
outside = refl

validate_contract-IsAgreed_example :
    IsAgreed no_match ascii_upper blank authority (codes "W1") (codes "L1") (codes "r")
unfolding computed
validate_contract-IsAgreed_example =
    validate_contract-IsAgreed no_match ascii_upper blank authority (codes "W1") (codes "L1")
      (codes "r") refl

validate_required_anchor-IsAnchored_example :
    IsAnchored no_match
      (validate_required_anchor no_match ascii_upper blank authority
        (codes "W1")
        (codes "L1")
        (codes "r")
        (codes "a")
        (some anchor))
      (validate_contract no_match ascii_upper blank authority (codes "W1") (codes "L1") (codes "r"))
      (write_sets blank authority (codes "W1") (codes "L1"))
unfolding computed
validate_required_anchor-IsAnchored_example =
    validate_required_anchor-IsAnchored no_match ascii_upper blank authority (codes "W1")
      (codes "L1") (codes "r") (codes "a") (some anchor) refl

abbrev policy_args : PolicyArgs
policy_args = record {
  worker_slot = codes "W1";
  lane = codes "L1";
  route_file = codes "r";
  required_contract_file = codes "a";
  base_sha = some zeros;
  head_sha = some head_sha;
  enforce_full_write_surface = true;
}

policy_main-IsGated_example :
    IsGated no_match ascii_upper blank (repository deletion) authority (some anchor) policy_args
unfolding computed
policy_main-IsGated_example =
    policy_main-IsGated no_match ascii_upper blank (repository deletion) authority (some anchor)
      policy_args refl refl

policy_main_refuses :
    policy_main no_match ascii_upper blank
      (repository (b'M' ∷ 9 ∷ codes "g/x" ++ 10 ∷ []))
      authority
      (some anchor)
      policy_args
    ≡ ok 2
unfolding computed
policy_main_refuses = refl

abbrev constraints_args : ConstraintsArgs
constraints_args = record {
  worker_slot = codes "W1";
  lane = codes "L1";
  route_file = codes "r";
  base_sha = some zeros;
  head_sha = some head_sha;
  enforce_transition_lineage = true;
}

constraints_main-IsChecked_example :
    IsChecked no_match ascii_upper blank (repository deletion) authority constraints_args
unfolding computed
constraints_main-IsChecked_example =
    constraints_main-IsChecked no_match ascii_upper blank (repository deletion) authority
      constraints_args refl refl refl

-- A path that is normalized twice is another one: the blank behind `./` is stripped only then.
normalized_once : norm_path (codes "./ a") ≡ codes " a"
unfolding computed
normalized_once = refl

normalized_twice : norm_path (norm_path (codes "./ a")) ≡ codes "a"
unfolding computed
normalized_twice = refl
