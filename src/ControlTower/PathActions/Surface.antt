-- ===== src/ControlTower/PathActions/Surface.antt =====
-- The write surface of a whole diff, and that of a contract: lemmas on
-- `validate_full_diff_write_surface` and `validate_contract`.
use second_brain_coordinatio.Prelude.{
  Text, codes, Bool, true, false, List, [], ◌∷◌, ◌++◌, ◌≡◌, ◌↔◌, ◌∙◌, refl, sym, ap, arith,
  Bool-cases, inl, inr, ◌&&◌, not, select, select-none, All-weaken, any, text_eq, text_eq_sound,
  text_eq_refl, mem_text, All, Dict,
}
use second_brain_coordinatio.ControlTower.PathActions.Findings.{
  PathActionConstraint, raise_action, empty_authority, protected_root_changed,
  outside_write_surface,
}
use second_brain_coordinatio.ControlTower.PathActions.Patterns.{
  covers_normal, pattern_covers_exact, norm_path,
}
use second_brain_coordinatio.ControlTower.PathActions.Contract.{
  Sources, has_any, insert_sorted, sort_texts, broader_paths, surface_findings, constraint_findings,
}
use second_brain_coordinatio.ControlTower.PathActions.Policy.{
  covering_paths, changed_path_findings, entry_findings, validate_full_diff_write_surface,
}
use second_brain_coordinatio.ControlTower.PathActions.Diff.{Entry, Git, git_diff_entries}
use second_brain_coordinatio.ControlTower.PathActions.Lineage.{append-empty, raise_action-empty}

has_any-insert_sorted : (t : Text) (ts : List Text) → has_any (insert_sorted t ts) ≡ true
unfolding insert_sorted
has_any-insert_sorted t [] = refl
has_any-insert_sorted t (u ∷ us) = ground arith

has_any-sort_texts : (ts : List Text) → has_any (sort_texts ts) ≡ has_any ts
unfolding sort_texts
has_any-sort_texts [] = refl
has_any-sort_texts (t ∷ ts) = has_any-insert_sorted t (sort_texts ts)

has_any-select : (test : Text → Bool) (ts : List Text) → has_any (select test ts) ≡ any test ts
has_any-select test [] = refl
has_any-select test (t ∷ ts) = ground (arith, has_any-select test ts)

pub has_any-none {ℓ} : {A : Type ℓ} (xs : List A) → has_any xs ≡ false → xs ≡ []
has_any-none [] h = refl
has_any-none (x ∷ xs) h = cc

module _ (fnmatchcase : Text → Text → Bool) where
  abbrev pub covers : Text → Text → Bool
  covers = pattern_covers_exact fnmatchcase

  -- A change that the surface permits: the path is not protected, and a write path covers it.
  pub record IsPermitted (write_paths protected : List Text) (path : Text) : Type 0 where
    pub unprotected : mem_text path protected ≡ false
    pub covered : any (λ p. covers p path) write_paths ≡ true

  pub covered_iff :
      (write_paths : List Text) (path : Text)
      → (not (has_any (covering_paths fnmatchcase write_paths path)) ≡ false)
        ↔ (any (λ p. covers p path) write_paths ≡ true)
  unfolding covering_paths
  covered_iff write_paths path =
      let e =
        has_any-sort_texts (select (λ p. covers p path) write_paths)
        ∙ has_any-select (λ p. covers p path) write_paths in
      (λ h. ground (arith, e), λ h. ground (arith, e))

  changed_path_findings_iff :
      (write_paths protected : List Text) (status : Text) (paths : List Text)
      → (changed_path_findings fnmatchcase write_paths protected status paths ≡ [])
        ↔ All (IsPermitted write_paths protected) paths
  unfolding changed_path_findings
  changed_path_findings_iff write_paths protected status [] = (λ h. tt, λ h. refl)
  changed_path_findings_iff write_paths protected status (path ∷ paths) =
      let uncovered = not (has_any (covering_paths fnmatchcase write_paths path)) in
      let rest = changed_path_findings fnmatchcase write_paths protected status paths in
      let ih = changed_path_findings_iff write_paths protected status paths in
      let covered = covered_iff write_paths path in
      let first = raise_action (mem_text path protected) (protected_root_changed status path) in
      let second = raise_action uncovered (outside_write_surface status path) in
      let two = append-empty first second in
      let all = append-empty (first ++ second) rest in
      let free =
        raise_action-empty (mem_text path protected) (protected_root_changed status path) in
      let raised = raise_action-empty uncovered (outside_write_surface status path) in
      (
        λ h.
            let here = two.0 (all.0 h).0 in
            (
              record { unprotected = free.0 here.0; covered = covered.0 (raised.0 here.1) },
              ih.0 (all.0 h).1,
            ),
        λ h. all.1 (
          two.1 (
            free.1 (IsPermitted.unprotected h.0),
            raised.1 (covered.1 (IsPermitted.covered h.0)),
          ),
          ih.1 h.1,
        ),
      )

  entry_findings_iff :
      (write_paths protected : List Text) (entries : List Entry)
      → (entry_findings fnmatchcase write_paths protected entries ≡ [])
        ↔ All (λ (e : Entry). All (IsPermitted write_paths protected) e.1) entries
  unfolding entry_findings
  entry_findings_iff write_paths protected [] = (λ h. tt, λ h. refl)
  entry_findings_iff write_paths protected ((status, paths) ∷ entries) =
      let both =
        append-empty (changed_path_findings fnmatchcase write_paths protected status paths)
          (entry_findings fnmatchcase write_paths protected entries) in
      let here = changed_path_findings_iff write_paths protected status paths in
      let rest = entry_findings_iff write_paths protected entries in
      (λ h. (here.0 (both.0 h).0, rest.0 (both.0 h).1), λ h. both.1 (here.1 h.0, rest.1 h.1))

  -- A diff has no finding on its write surface exactly when each path of each entry, both paths of
  -- a rename, is no protected one and some write path covers it.
  pub validate_full_diff_write_surface_iff :
      (git : Git) (base_sha head_sha : Text) (write_paths protected : List Text)
      → (validate_full_diff_write_surface fnmatchcase git base_sha head_sha write_paths protected
          ≡ [])
        ↔ All
            (λ (e : Entry). All (IsPermitted write_paths protected) e.1)
            (git_diff_entries (git.diff_output base_sha head_sha))
  unfolding validate_full_diff_write_surface
  validate_full_diff_write_surface_iff git base_sha head_sha write_paths protected =
      entry_findings_iff write_paths protected
        (git_diff_entries (git.diff_output base_sha head_sha))

  -- Three write surfaces that are one, and a path that only itself covers in it.
  covers_refl : (path : Text) → covers path path ≡ true
  unfolding pattern_covers_exact covers_normal
  covers_refl path = ground (arith, text_eq_refl (norm_path path))

  -- The write paths list the path, and no other of them covers it.
  pub record IsExact (paths : List Text) (path : Text) : Type 0 where
    pub listed : mem_text path paths ≡ true
    pub only : All (λ p. covers p path ≡ text_eq p path) paths

  only_one :
      (path p : Text)
      → (not (text_eq p path) && covers p path) ≡ false
      → covers p path ≡ text_eq p path
  only_one path p h = elim (Bool-cases (text_eq p path)) [
    | inl same ↦ ap (λ t. covers t path) (text_eq_sound p path same) ∙ (covers_refl path ∙ sym same)
    | inr other ↦ ground arith
  ]

  only_itself :
      (path : Text) (paths : List Text)
      → broader_paths fnmatchcase path paths ≡ []
      → All (λ p. covers p path ≡ text_eq p path) paths
  unfolding broader_paths
  only_itself path paths h =
      All-weaken (only_one path) paths
        (select-none (λ p. not (text_eq p path) && covers p path) paths h)

  surface_findings-IsExact :
      (source : Text) (paths : List Text) (path : Text)
      → surface_findings fnmatchcase source paths path ≡ []
      → IsExact paths path
  unfolding surface_findings
  surface_findings-IsExact source paths path h =
      let both = (append-empty (raise_action (not (mem_text path paths)) _) _).0 h in
      let bypass =
        (raise_action-empty (has_any (broader_paths fnmatchcase path paths)) _).0 both.1 in
      record {
        listed = ground (arith, both.0);
        only = only_itself path paths (has_any-none (broader_paths fnmatchcase path paths) bypass);
      }

  -- What `validate_contract` asks of the constraint on a path.
  pub record IsGuarded (s : Sources (List Text)) (entry : Text × PathActionConstraint)
      : Type 0 where
    pub in_registry : IsExact s.worker_registry entry.0
    pub in_claim : IsExact s.work_claim entry.0
    pub in_route : IsExact s.route entry.0
    pub has_action : has_any entry.1.allowed_actions ≡ true

  pub constraint_findings-IsGuarded :
      (s : Sources (List Text)) (constraints : Dict PathActionConstraint)
      → constraint_findings fnmatchcase s constraints ≡ []
      → All (IsGuarded s) constraints
  unfolding constraint_findings
  constraint_findings-IsGuarded s [] h = tt
  constraint_findings-IsGuarded s ((path, constraint) ∷ constraints) h =
      let a = surface_findings fnmatchcase (codes "worker_registry") s.worker_registry path in
      let b = surface_findings fnmatchcase (codes "work_claim") s.work_claim path in
      let c = surface_findings fnmatchcase (codes "route") s.route path in
      let d = raise_action (not (has_any constraint.allowed_actions)) (empty_authority path) in
      let rest =
        (append-empty (a ++ b ++ c ++ d) (constraint_findings fnmatchcase s constraints)).0 h in
      let last = (append-empty (a ++ b ++ c) d).0 rest.0 in
      let third = (append-empty (a ++ b) c).0 last.0 in
      let pair = (append-empty a b).0 third.0 in
      (
        record {
          in_registry =
              surface_findings-IsExact (codes "worker_registry") s.worker_registry path pair.0;
          in_claim = surface_findings-IsExact (codes "work_claim") s.work_claim path pair.1;
          in_route = surface_findings-IsExact (codes "route") s.route path third.1;
          has_action = ground (arith, last.1);
        },
        constraint_findings-IsGuarded s constraints rest.1,
      )
