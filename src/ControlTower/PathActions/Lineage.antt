-- ===== src/ControlTower/PathActions/Lineage.antt =====
-- What no finding on a diff or on a transition means: lemmas on `validate_diff_actions`,
-- `validate_transition_lineage` and `validate_full_diff_write_surface`.
use mathlib.Core.Path.{subst}
use second_brain_coordinatio.Prelude.{
  Text, codes, Bool, true, false, some, List, [], ◌∷◌, ◌++◌, ◌≡◌, ◌↔◌, ◌∙◌, refl, sym, ap, arith,
  if◌then◌else◌, select, text_eq_sound, mem_text, All, map, Dict,
}
use second_brain_coordinatio.ControlTower.PathActions.Findings.{
  PathActionConstraint, ActionFinding, raise_action, diff_violation,
}
use second_brain_coordinatio.ControlTower.PathActions.Diff.{
  Entry, Git, derived_action, path_violations, validate_diff_actions, is_state, is_one_delete,
  relevant_entries, state_findings, transition_findings, lineage_of, validate_transition_lineage,
  git_diff_entries,
}

-- No findings in two parts, and in one that a test raises.
pub append-empty {ℓ} : {A : Type ℓ} (xs ys : List A) → (xs ++ ys ≡ []) ↔ ((xs ≡ []) × (ys ≡ []))
append-empty [] ys = (λ h. (refl, h), λ h. h.1)
append-empty (x ∷ xs) ys = (λ h. cc, λ h. cc)

pub raise_action-empty :
    (test : Bool) (finding : ActionFinding) → (raise_action test finding ≡ []) ↔ (test ≡ false)
raise_action-empty true finding = (λ h. cc, λ h. cc)
raise_action-empty false finding = (λ h. refl, λ h. refl)

unless-empty {ℓ} :
    {A : Type ℓ} (test : Bool) (x : A) (xs : List A)
    → ((if test then xs else x ∷ xs) ≡ []) ↔ ((test ≡ true) × (xs ≡ []))
unless-empty true x xs = (λ h. (refl, h), λ h. h.1)
unless-empty false x xs = (λ h. cc, λ h. cc)

raised :
    (test : Bool) (finding : ActionFinding) (rest : List ActionFinding)
    → raise_action test finding ++ rest ≡ []
    → (test ≡ false) × (rest ≡ [])
raised true finding rest h = cc
raised false finding rest h = (refl, h)

All-if {ℓ κ} :
    {A : Type ℓ} (b : Bool) (P : A → Type κ) (x : A) (xs : List A)
    → (b ≡ true → P x)
    → All P xs
    → All P (if b then x ∷ xs else xs)
All-if true P x xs p all = (p refl, all)
All-if false P x xs p all = all

All-select {ℓ} :
    {A : Type ℓ} (test : A → Bool) (xs : List A) → All (λ x. test x ≡ true) (select test xs)
All-select test [] = tt
All-select test (x ∷ xs) =
    All-if (test x) (λ y. test y ≡ true) x (select test xs) (λ h. h) (All-select test xs)

All-selected {ℓ κ} :
    {A : Type ℓ} (test : A → Bool) (P : A → Type κ) (x : A) (xs : List A)
    → test x ≡ true
    → All P (select test (x ∷ xs))
    → P x
All-selected test P x xs h all =
    let kept : select test (x ∷ xs) ≡ x ∷ select test xs = rw h refl in (subst (All P) kept all).0

is_one_delete_sound :
    (actions : List Text) → is_one_delete actions ≡ true → actions ≡ codes "DELETE" ∷ []
unfolding is_one_delete
is_one_delete_sound [] h = cc
is_one_delete_sound (a ∷ []) h = ap (λ t. t ∷ []) (text_eq_sound a (codes "DELETE") h)
is_one_delete_sound (a ∷ b ∷ cs) h = cc

module _ (upper : Text → Text) where
  -- The action that the entry shows is an allowed one.
  abbrev pub is_allowed : PathActionConstraint → Entry → Bool
  is_allowed constraint entry = mem_text (derived_action upper entry.0) constraint.allowed_actions

  -- Every entry that names a constrained path shows an allowed action.
  abbrev pub Respects : List Entry → Text × PathActionConstraint → Type 0
  Respects entries (path, constraint) =
      All (λ e. is_allowed constraint e ≡ true) (select (λ e. mem_text path e.1) entries)

  path_violations-empty :
      (path : Text) (constraint : PathActionConstraint) (entries : List Entry)
      → (path_violations upper path constraint.allowed_actions entries ≡ [])
        ↔ All (λ e. is_allowed constraint e ≡ true) entries
  unfolding path_violations
  path_violations-empty path constraint [] = (λ h. tt, λ h. refl)
  path_violations-empty path constraint (e ∷ entries) =
      let rest = path_violations-empty path constraint entries in
      let first =
        unless-empty (is_allowed constraint e) (diff_violation path e.0 (derived_action upper e.0))
          (path_violations upper path constraint.allowed_actions entries) in
      (λ h. let both = first.0 h in (both.0, rest.0 both.1), λ h. first.1 (h.0, rest.1 h.1))

  -- A diff has no finding exactly when every entry that names a constrained path shows an action
  -- that the constraint allows.
  pub validate_diff_actions_iff :
      (constraints : Dict PathActionConstraint) (entries : List Entry)
      → (validate_diff_actions upper constraints entries ≡ []) ↔ All (Respects entries) constraints
  unfolding validate_diff_actions
  validate_diff_actions_iff [] entries = (λ h. tt, λ h. refl)
  validate_diff_actions_iff ((path, constraint) ∷ constraints) entries =
      let here = path_violations-empty path constraint (select (λ e. mem_text path e.1) entries) in
      let rest = validate_diff_actions_iff constraints entries in
      let both =
        append-empty
          (path_violations upper path constraint.allowed_actions
            (select (λ e. mem_text path e.1) entries))
          (validate_diff_actions upper constraints entries) in
      (λ h. (here.0 (both.0 h).0, rest.0 (both.0 h).1), λ h. both.1 (here.1 h.0, rest.1 h.1))

-- The cleanup that a constraint with a baseline and the final state ABSENT asks for.
pub record IsCleanup (upper : Text → Text) (git : Git) (head_sha path baseline : Text)
    (constraint : PathActionConstraint) : Type 0 where
  pub exists : git.commit_exists baseline ≡ true
  pub ancestor : git.is_ancestor baseline head_sha ≡ true
  pub present : git.object_exists baseline path ≡ true
  pub absent : git.object_exists head_sha path ≡ false
  pub one_delete :
      map (λ (e : Entry). derived_action upper e.0) (relevant_entries git baseline head_sha path)
      ≡ codes "DELETE" ∷ []
  pub allowed : mem_text (codes "DELETE") constraint.allowed_actions ≡ true

module _ (upper : Text → Text) (git : Git) (head_sha : Text) where
  -- The tests on a transition that ends with the path gone.
  state-IsCleanup :
      (path : Text) (constraint : PathActionConstraint) (baseline : Text) (relevant : List Entry)
      → constraint.required_final_state ≡ some (codes "ABSENT")
      → state_findings upper git head_sha path constraint baseline relevant ≡ []
      → (git.is_ancestor baseline head_sha ≡ true)
        × (git.object_exists baseline path ≡ true)
        × (git.object_exists head_sha path ≡ false)
        × (is_one_delete (map (λ (e : Entry). derived_action upper e.0) relevant) ≡ true)
  unfolding state_findings
  state-IsCleanup path constraint baseline relevant final h =
      let state = constraint.required_final_state in
      let gone : is_state state (codes "ABSENT") ≡ true = rw final refl in
      (ground (arith, h), ground (arith, h), ground (arith, h, gone), ground (arith, h, gone))

  -- The one entry that names the path is a deletion that the constraint allows.
  delete_allowed :
      (path : Text) (constraint : PathActionConstraint) (relevant : List Entry)
      → map (λ (e : Entry). derived_action upper e.0) relevant ≡ codes "DELETE" ∷ []
      → All (λ e. mem_text path e.1 ≡ true) relevant
      → validate_diff_actions upper ((path, constraint) ∷ []) relevant ≡ []
      → mem_text (codes "DELETE") constraint.allowed_actions ≡ true
  delete_allowed path constraint [] one names h = cc
  delete_allowed path constraint (e ∷ relevant) one (named, _) h =
      let shown : derived_action upper e.0 ≡ codes "DELETE" = cc in
      let allowed =
        All-selected (λ e. mem_text path e.1) (λ e. is_allowed upper constraint e ≡ true) e relevant
          named
          ((validate_diff_actions_iff upper ((path, constraint) ∷ []) (e ∷ relevant)).0 h).0 in
      sym (ap (λ a. mem_text a constraint.allowed_actions) shown) ∙ allowed

  lineage-IsCleanup :
      (path : Text) (constraint : PathActionConstraint) (baseline : Text)
      → constraint.required_final_state ≡ some (codes "ABSENT")
      → lineage_of upper git head_sha path constraint (some baseline) ≡ []
      → IsCleanup upper git head_sha path baseline constraint
  unfolding lineage_of transition_findings relevant_entries
  lineage-IsCleanup path constraint baseline final h =
      let relevant = relevant_entries git baseline head_sha path in
      let found : git.commit_exists baseline ≡ true = ground arith in
      let parts =
        (append-empty (validate_diff_actions upper ((path, constraint) ∷ []) relevant)
            (state_findings upper git head_sha path constraint baseline relevant)).0
          (sym (rw found refl) ∙ h) in
      let tests = state-IsCleanup path constraint baseline relevant final parts.1 in
      let one = is_one_delete_sound _ tests.3 in
      record {
        exists = found;
        ancestor = tests.0;
        present = tests.1;
        absent = tests.2;
        one_delete = one;
        allowed =
            delete_allowed path constraint relevant one
              (All-select (λ e. mem_text path e.1)
                (git_diff_entries (git.diff_output baseline head_sha)))
              parts.0;
      }

  -- A head without findings on its transitions: a constraint with a baseline and the final state
  -- ABSENT is met by a cleanup. The baseline is a commit that exists, an ancestor of the head that
  -- has the path, the head has not, and the entries in between that name the path are one deletion,
  -- which the constraint allows.
  pub validate_transition_lineage-IsCleanup :
      (before : Dict PathActionConstraint) (path : Text) (constraint : PathActionConstraint)
      (after : Dict PathActionConstraint) (baseline : Text)
      → constraint.transition_baseline_sha ≡ some baseline
      → constraint.required_final_state ≡ some (codes "ABSENT")
      → validate_transition_lineage upper git head_sha (before ++ (path, constraint) ∷ after) ≡ []
      → IsCleanup upper git head_sha path baseline constraint
  unfolding validate_transition_lineage
  validate_transition_lineage-IsCleanup [] path constraint after baseline from final h =
      lineage-IsCleanup path constraint baseline final (
        ap (λ b. lineage_of upper git head_sha path constraint b) (sym from)
        ∙ ((append-empty
              (lineage_of upper git head_sha path constraint constraint.transition_baseline_sha)
              _).0
            h).0)
  validate_transition_lineage-IsCleanup ((p, c) ∷ before) path constraint after baseline from final
        h =
      validate_transition_lineage-IsCleanup before path constraint after baseline from final
        ((append-empty (lineage_of upper git head_sha p c c.transition_baseline_sha) _).0 h).1
