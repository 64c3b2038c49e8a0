-- ===== src/ControlTower/Lifecycle/Registry/Bounds.antt =====
-- The capacity that a valid audit reports, and the loop of the audit over the slots.
use mathlib.Core.Path.{subst}
use second_brain_coordinatio.Prelude.{
  ℕ, suc, ◌+◌, ◌-◌, ◌≤◌, Text, codes, Bool, true, false, Option, none, some, List, [], ◌∷◌, ◌++◌,
  ◌≡◌, ◌∙◌, refl, sym, ap, arith, Option-cases, inl, inr, text_eq, mem_text, All, All-snoc, length,
  ok, ok_injective, ◌≢◌, >>=-eq-ok, if◌then◌else◌,
}
use second_brain_coordinatio.Kernel.Canonical.Json.{Value}
use second_brain_coordinatio.ControlTower.Values.{Mapping, get, mapping_of}
use second_brain_coordinatio.ControlTower.Lifecycle.Resolution.{WorkerLifecycleResolution}
use second_brain_coordinatio.ControlTower.Lifecycle.Schema.{
  Audit, WorkerRegistryLifecycleAudit, is_unknown, is_empty, raise_finding, exceeds, slots_of,
  capacity_limit_from_program, registry_schema_findings, legacy_compatibility, known_observation,
  positive_of, candidate_of,
}
use second_brain_coordinatio.ControlTower.Lifecycle.Registry.{
  sign, failed_audit, add_slot, audit_slot, audit_raw, audit_slots, close_audit, audit_list,
  identity_findings, audit_worker_registry_lifecycle,
}
use second_brain_coordinatio.ControlTower.Lifecycle.Registry.Distinct.{
  Distinct, Distinct-snoc, mem_text-append, errors, errors-append,
}

abbrev pub Entry : Type 0
Entry = Text × WorkerLifecycleResolution

abbrev pub ids : List Entry → List Text
ids [] = []
ids (r ∷ rs) = r.0 ∷ ids rs

abbrev pub occupying : List Entry → List Text
occupying [] = []
occupying (r ∷ rs) = let rest = occupying rs in if r.1.occupies_capacity then r.0 ∷ rest else rest

ids-snoc : (rs : List Entry) (r : Entry) → ids (rs ++ r ∷ []) ≡ ids rs ++ r.0 ∷ []
ids-snoc [] r = refl
ids-snoc (s ∷ rs) r = ap (λ ts. s.0 ∷ ts) (ids-snoc rs r)

occupying-snoc :
    (rs : List Entry) (r : Entry)
    → occupying (rs ++ r ∷ []) ≡ occupying rs ++ (if r.1.occupies_capacity then r.0 ∷ [] else [])
occupying-snoc [] r = refl
occupying-snoc (s ∷ rs) r = ground (arith, occupying-snoc rs r)

-- What the loop has so far, while no finding is an error.
record IsQuiet (a : Audit) : Type 0 where
  distinct : Distinct (ids a.slot_resolutions)
  seen : (t : Text) → mem_text t a.seen ≡ mem_text t (ids a.slot_resolutions)
  known : All (λ (r : Entry). is_unknown r.1.lifecycle_state ≡ false) a.slot_resolutions
  occupied : a.occupied ≡ occupying a.slot_resolutions

-- A finding that is an error was raised, or its test failed.
not_raised :
    (test : Bool) (code : Text)
    → errors (raise_finding test code) ≡ []
    → text_eq code legacy_compatibility ≡ false
    → test ≡ false
not_raised true code h e = ground arith
not_raised false code h e = refl

-- The findings only grow, at their end.
add_slot-errors :
    (missing : List Text) (slot_id : Text) (r : WorkerLifecycleResolution) (a : Audit)
    → errors (add_slot missing slot_id r a).findings ≡ []
    → (errors a.findings ≡ [])
      × (mem_text slot_id a.seen ≡ false)
      × (is_unknown r.lifecycle_state ≡ false)
unfolding add_slot
add_slot-errors missing slot_id r a h =
    let repeated =
      raise_finding (mem_text slot_id a.seen) (codes "WORKER_SLOT_ID_DUPLICATE:" ++ slot_id) in
    let unknown =
      raise_finding (is_unknown r.lifecycle_state)
        (codes "WORKER_SLOT_LIFECYCLE_UNKNOWN:" ++ slot_id) in
    let outer = errors-append (a.findings ++ missing ++ repeated) unknown h in
    let inner = errors-append (a.findings ++ missing) repeated outer.0 in
    (
      (errors-append a.findings missing inner.0).0,
      not_raised _ _ inner.1 refl,
      not_raised _ _ outer.1 refl,
    )

seen-snoc :
    (slot_id : Text) (a : Audit) (r : WorkerLifecycleResolution) (q : IsQuiet a) (t : Text)
    → mem_text t (slot_id ∷ a.seen) ≡ mem_text t (ids (a.slot_resolutions ++ (slot_id, r) ∷ []))
seen-snoc slot_id a r q t =
    rw (ids-snoc a.slot_resolutions (slot_id, r))
      (ground (arith, q.seen t, mem_text-append t (ids a.slot_resolutions) (slot_id ∷ [])))

add_slot-IsQuiet :
    (missing : List Text) (slot_id : Text) (r : WorkerLifecycleResolution) (a : Audit)
    → errors (add_slot missing slot_id r a).findings ≡ []
    → IsQuiet a
    → IsQuiet (add_slot missing slot_id r a)
unfolding add_slot
add_slot-IsQuiet missing slot_id r a h q =
    let (_, new, known) = add_slot-errors missing slot_id r a h in
    record {
      distinct =
          rw (ids-snoc a.slot_resolutions (slot_id, r))
            (Distinct-snoc _ slot_id q.distinct (sym (q.seen slot_id) ∙ new));
      seen = seen-snoc slot_id a r q;
      known = All-snoc _ a.slot_resolutions q.known known;
      occupied =
          rw (occupying-snoc a.slot_resolutions (slot_id, r))
            (ap (λ ts. ts ++ (if r.occupies_capacity then slot_id ∷ [] else [])) q.occupied);
    }

empty_of : (ts : List Text) → is_empty ts ≡ true → ts ≡ []
unfolding is_empty
empty_of [] h = refl
empty_of (t ∷ ts) h = cc

not-exceeds :
    (limit : ℕ) (occupied : List Text)
    → exceeds (some limit) occupied ≡ false
    → length occupied ≤ limit
unfolding exceeds
not-exceeds limit occupied h = ground arith

some_error : errors (codes "GPT_WORKER_CAPACITY_LIMIT_UNKNOWN" ∷ []) ≢ []
some_error h = cc

capacity_known :
    (program : Option Mapping)
    → errors (capacity_limit_from_program program).1 ≡ []
    → (limit : ℕ) × ((capacity_limit_from_program program).0 ≡ some limit)
unfolding capacity_limit_from_program
capacity_known none h = cc
capacity_known (some program) h =
    elim (Option-cases
      (positive_of (candidate_of (mapping_of (get program (codes "portfolio_capacity_policy")))))) [
        | inl e ↦ absurd (some_error (rw (e, capacity_limit_from_program) at h))
        | inr (limit, e) ↦ (limit, rw (e, capacity_limit_from_program) refl)
      ]

-- The numbers of an audit add up.
pub record Accounts (audit : WorkerRegistryLifecycleAudit) : Type 0 where
  pub limit : ℕ
  pub free : ℕ
  pub configured : audit.configured_capacity_limit ≡ some limit
  pub observed : audit.capacity_state ≡ known_observation
  pub counted : audit.occupied_capacity_count ≡ some (length audit.occupied_capacity_slots)
  pub freed : audit.free_capacity_count ≡ some free
  pub balanced : free + length audit.occupied_capacity_slots ≡ limit
  pub distinct : Distinct (ids audit.slot_resolutions)
  pub known : All (λ (r : Entry). is_unknown r.1.lifecycle_state ≡ false) audit.slot_resolutions
  pub occupied : audit.occupied_capacity_slots ≡ occupying audit.slot_resolutions

start-IsQuiet :
    {findings : List Text}
    → IsQuiet (record { findings = findings; slot_resolutions = []; occupied = []; seen = [] })
start-IsQuiet = record { distinct = tt; seen = λ t. refl; known = tt; occupied = refl }

module _ (upper : Text → Text) (repr : Value → Text) (sha256 : Text → Text) where
  abbrev round : ℕ → Value → Audit → Audit
  round = audit_raw upper repr sha256

  round-errors :
      (index : ℕ) (raw : Value) (a : Audit)
      → errors (round index raw a).findings ≡ []
      → errors a.findings ≡ []
  unfolding audit_raw audit_slot
  round-errors index raw a h = elim (Option-cases (mapping_of raw)) [
    | inl e ↦ (errors-append a.findings _ (rw (e, audit_raw) at h)).0
    | inr (slot, e) ↦ (add_slot-errors _ _ _ a (rw (e, audit_raw) at h)).0
  ]

  round-IsQuiet :
      (index : ℕ) (raw : Value) (a : Audit)
      → errors (round index raw a).findings ≡ []
      → IsQuiet a
      → IsQuiet (round index raw a)
  unfolding audit_raw audit_slot
  round-IsQuiet index raw a h q = elim (Option-cases (mapping_of raw)) [
    | inl e ↦
        rw (e, audit_raw)
          (record { distinct = q.distinct; seen = q.seen; known = q.known; occupied = q.occupied })
    | inr (slot, e) ↦ rw (e, audit_raw) (add_slot-IsQuiet _ _ _ a (rw (e, audit_raw) at h) q)
  ]

  audit_slots-errors :
      (index : ℕ) (raws : List Value) (a : Audit)
      → errors (audit_slots upper repr sha256 index raws a).findings ≡ []
      → errors a.findings ≡ []
  unfolding audit_slots
  audit_slots-errors index [] a h = h
  audit_slots-errors index (raw ∷ raws) a h =
      round-errors index raw a (audit_slots-errors (suc index) raws (round index raw a) h)

  audit_slots-IsQuiet :
      (index : ℕ) (raws : List Value) (a : Audit)
      → errors (audit_slots upper repr sha256 index raws a).findings ≡ []
      → IsQuiet a
      → IsQuiet (audit_slots upper repr sha256 index raws a)
  unfolding audit_slots
  audit_slots-IsQuiet index [] a h q = q
  audit_slots-IsQuiet index (raw ∷ raws) a h q =
      audit_slots-IsQuiet (suc index) raws (round index raw a) h
        (round-IsQuiet index raw a (audit_slots-errors (suc index) raws (round index raw a) h) q)

  -- What a valid audit says of the variables of its loop.
  close_audit-valid :
      (registry : Mapping) (limit : Option ℕ) (a : Audit)
      → (close_audit upper repr sha256 registry limit a).valid_for_observability ≡ true
      → (errors a.findings ≡ []) × (exceeds limit a.occupied ≡ false)
  unfolding close_audit sign
  close_audit-valid registry limit a h =
      let both = errors-append a.findings _ (empty_of _ h) in (both.0, not_raised _ _ both.1 refl)

  close_audit-Accounts :
      (registry : Mapping) (configured : Option ℕ) (limit : ℕ) (a : Audit)
      → configured ≡ some limit
      → (close_audit upper repr sha256 registry configured a).valid_for_observability ≡ true
      → IsQuiet a
      → Accounts (close_audit upper repr sha256 registry configured a)
  unfolding close_audit sign
  close_audit-Accounts registry none limit a e h q = cc
  close_audit-Accounts registry (some limit) _ a e h q =
      let within : length a.occupied ≤ limit =
        not-exceeds limit a.occupied (close_audit-valid registry (some limit) a h).1 in
      record {
        limit = limit;
        free = limit - length a.occupied;
        configured = refl;
        observed = rw h refl;
        counted = refl;
        freed = rw h refl;
        balanced = omega arith;
        distinct = q.distinct;
        known = q.known;
        occupied = q.occupied;
      }

  audit_list-Accounts :
      (registry : Mapping) (program : Option Mapping) (first more : List Text)
      (slots : Option (List Value))
      → let capacity = capacity_limit_from_program program in
        let audit =
          audit_list upper repr sha256 registry capacity.0 (capacity.1 ++ first ++ more) slots in
        audit.valid_for_observability ≡ true → Accounts audit
  unfolding audit_list failed_audit sign
  audit_list-Accounts registry program first more none h = cc
  audit_list-Accounts registry program first more (some raws) h =
      let capacity = capacity_limit_from_program program in
      let start : Audit = record {
        findings = capacity.1 ++ first ++ more;
        slot_resolutions = [];
        occupied = [];
        seen = [];
      } in
      let quiet = (close_audit-valid registry capacity.0 _ h).0 in
      let before =
        errors-append (capacity.1 ++ first) more (audit_slots-errors 0 raws start quiet) in
      let known = capacity_known program (errors-append capacity.1 first before.0).0 in
      close_audit-Accounts registry capacity.0 known.0 _ known.1 h
        (audit_slots-IsQuiet 0 raws start quiet start-IsQuiet)

  -- A valid audit knows its capacity: there is a limit, the occupied slots are exactly those whose
  -- resolution occupies capacity, they and the free capacity add up to the limit, the ids of the
  -- slots are distinct, and no slot is in an unknown state.
  pub audit-Accounts :
      (program registry : Option Mapping) {audit : WorkerRegistryLifecycleAudit}
      → audit_worker_registry_lifecycle upper repr sha256 program registry ≡ ok audit
      → audit.valid_for_observability ≡ true
      → Accounts audit
  unfolding audit_worker_registry_lifecycle failed_audit sign
  audit-Accounts program none {audit} h valid =
      let failed : audit.valid_for_observability ≡ false =
        sym (ap (λ a. a.valid_for_observability) (ok_injective h)) in
      absurd (cc)
  audit-Accounts program (some registry) h valid =
      let (found, _, returned) =
        >>=-eq-ok (registry_schema_findings (get registry (codes "schema_version"))) _ h in
      subst (λ (a : WorkerRegistryLifecycleAudit). a.valid_for_observability ≡ true → Accounts a)
        (ok_injective returned)
        (audit_list-Accounts registry program found (identity_findings registry)
          (slots_of registry))
        valid
