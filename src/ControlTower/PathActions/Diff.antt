-- ===== src/ControlTower/PathActions/Diff.antt =====
-- path_action_constraints.py: the entries of `git diff`, the actions that they show, and the lineage
-- of a transition.
use second_brain_coordinatio.Prelude.{
  ℕ, Text, codes, Bool, false, Option, none, some, List, [], ◌∷◌, ◌++◌, ◌==◌, ◌&&◌, ◌||◌, not,
  if◌then◌else◌, select, text_eq, mem_text, map, Dict, leb,
}
use second_brain_coordinatio.Broker.WritePaths.{strip}
use second_brain_coordinatio.ControlTower.PathActions.Patterns.{norm_path}
use second_brain_coordinatio.ControlTower.PathActions.Findings.{
  PathActionConstraint, ActionFinding, raise_action, diff_violation, baseline_unavailable,
  baseline_not_ancestor, baseline_path_missing, final_state_violation, delete_transition_not_exact,
}

-- The status of an entry and its paths.
abbrev pub Entry : Type 0
Entry = Text × List Text

-- The text between characters that pass the test.
unfoldable pub split_by : (ℕ → Bool) → Text → List Text
split_by test [] = [] ∷ []
split_by test (c ∷ s) =
    let rest = split_by test s in
    if test c then [] ∷ rest else elim rest [ [] ↦ (c ∷ []) ∷ [] | t ∷ ts ↦ (c ∷ t) ∷ ts ]

-- The characters at which `splitlines` ends a line; an empty line more between \r and \n is dropped
-- with the blank ones.
unfoldable pub is_line_break : ℕ → Bool
is_line_break c =
    (leb 10 c && leb c 13) || (leb 28 c && leb c 30) || (c == 133) || (c == 8232) || (c == 8233)

unfoldable pub entry_of_line : List Text → List Entry
entry_of_line [] = []
entry_of_line (status ∷ paths) = (status, map norm_path paths) ∷ []

unfoldable pub entries_of_lines : List Text → List Entry
entries_of_lines [] = []
entries_of_lines (line ∷ lines) =
    entry_of_line (split_by (λ c. c == 9) line) ++ entries_of_lines lines

-- `_git_diff_entries` on the output of `git diff --name-status -M`.
unfoldable pub git_diff_entries : Text → List Entry
git_diff_entries output =
    entries_of_lines
      (select (λ line. not (text_eq (strip line) [])) (split_by is_line_break output))

abbrev pub first_char : Text → Text
first_char [] = []
first_char (c ∷ s) = c ∷ []

-- What git says of the repository: whether a commit exists, whether it is an ancestor of another
-- one, whether it has a path, and the output of a diff.
pub record Git : Type 0 where
  pub commit_exists : Text → Bool
  pub is_ancestor : Text → Text → Bool
  pub object_exists : Text → Text → Bool
  pub diff_output : Text → Text → Text

abbrev pub is_state : Option Text → Text → Bool
is_state none t = false
is_state (some s) t = text_eq s t

-- `actions != ["DELETE"]`
unfoldable pub is_one_delete : List Text → Bool
is_one_delete [] = false
is_one_delete (action ∷ []) = text_eq action (codes "DELETE")
is_one_delete (action ∷ other ∷ actions) = false

-- The entries between the baseline and the head that name the path.
unfoldable pub relevant_entries : Git → Text → Text → Text → List Entry
relevant_entries git baseline head_sha path =
    select (λ entry. mem_text path entry.1) (git_diff_entries (git.diff_output baseline head_sha))

module _ (upper : Text → Text) where
  unfoldable pub derived_action : Text → Text
  derived_action status =
      let code = upper (first_char status) in
      if text_eq code (codes "A")
      then codes "CREATE"
      else if text_eq code (codes "D")
      then codes "DELETE"
      else if text_eq code (codes "M") || text_eq code (codes "T")
      then codes "MODIFY"
      else codes "UNSUPPORTED"

  -- The inner loop of `validate_diff_actions`, over the entries that name the path.
  unfoldable pub path_violations : Text → List Text → List Entry → List ActionFinding
  path_violations path allowed [] = []
  path_violations path allowed ((status, paths) ∷ entries) =
      let rest = path_violations path allowed entries in
      if mem_text (derived_action status) allowed
      then rest
      else diff_violation path status (derived_action status) ∷ rest

  unfoldable pub validate_diff_actions : Dict PathActionConstraint → List Entry → List ActionFinding
  validate_diff_actions [] entries = []
  validate_diff_actions ((path, constraint) ∷ constraints) entries =
      path_violations path constraint.allowed_actions
        (select (λ entry. mem_text path entry.1) entries)
      ++ validate_diff_actions constraints entries

  module _ (git : Git) where
    -- `validate_diff`
    unfoldable pub validate_diff : Text → Text → Dict PathActionConstraint → List ActionFinding
    validate_diff base_sha head_sha constraints =
        validate_diff_actions constraints (git_diff_entries (git.diff_output base_sha head_sha))

    -- What a transition has to show, one test after the other.
    unfoldable pub state_findings :
        Text → Text → PathActionConstraint → Text → List Entry → List ActionFinding
    state_findings head_sha path constraint baseline relevant =
        let final_state = constraint.required_final_state in
        let baseline_present = git.object_exists baseline path in
        let head_present = git.object_exists head_sha path in
        let actions = map (λ entry. derived_action entry.0) relevant in
        raise_action (not (git.is_ancestor baseline head_sha)) (baseline_not_ancestor path)
        ++ raise_action (not baseline_present) (baseline_path_missing path)
        ++ raise_action (is_state final_state (codes "ABSENT") && head_present)
            (final_state_violation path (codes "ABSENT"))
        ++ raise_action (is_state final_state (codes "PRESENT") && not head_present)
            (final_state_violation path (codes "PRESENT"))
        ++ raise_action
            (baseline_present
              && is_state final_state (codes "ABSENT")
              && not (is_one_delete actions))
            (delete_transition_not_exact path actions)

    -- The checks on a transition whose baseline exists.
    unfoldable pub transition_findings :
        Text → Text → PathActionConstraint → Text → List ActionFinding
    transition_findings head_sha path constraint baseline =
        let relevant = relevant_entries git baseline head_sha path in
        validate_diff_actions ((path, constraint) ∷ []) relevant
        ++ state_findings head_sha path constraint baseline relevant

    -- One round of the loop of `validate_transition_lineage`.
    unfoldable pub lineage_of :
        Text → Text → PathActionConstraint → Option Text → List ActionFinding
    lineage_of head_sha path constraint none = []
    lineage_of head_sha path constraint (some baseline) =
        if not (git.commit_exists baseline)
        then baseline_unavailable path ∷ []
        else transition_findings head_sha path constraint baseline

    unfoldable pub validate_transition_lineage :
        Text → Dict PathActionConstraint → List ActionFinding
    validate_transition_lineage head_sha [] = []
    validate_transition_lineage head_sha ((path, constraint) ∷ constraints) =
        lineage_of head_sha path constraint constraint.transition_baseline_sha
        ++ validate_transition_lineage head_sha constraints
