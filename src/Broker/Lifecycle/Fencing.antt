-- ===== src/Broker/Lifecycle/Fencing.antt =====
-- What an authorized effect can rely on, and what a release ends.
use mathlib.Core.Path.{subst}
use second_brain_coordinatio.Prelude.{
  ℕ, ◌+◌, ◌≤◌, ◌<◌, Text, text_eq, text_eq_iff, text_eq_refl, Bool, true, false, not, ◌||◌, Option,
  none, some, List, [], ◌∷◌, ◌≡◌, refl, ap, arith, ok, err, raise_if-ok, ok_injective,
  some_injective, >>=-eq-ok, is_ok, Result-cases, Bool-cases, inl, inr, All, All-map, All-weaken,
  All-intro, ◌==◌, if◌then◌else◌,
}
use second_brain_coordinatio.Broker.Store.{
  is_active_status, LeaseRow, Connection, fence_row, expire_stale_leases,
}
use second_brain_coordinatio.Broker.Store.Expiry.{
  run_out, IsLive, expire_stale_leases-atomic, fence_executions-leases,
}
use second_brain_coordinatio.Broker.Rules.{
  BrokerError, lease_not_active, lease_mismatch, newer_generation, execution_not_active,
  LeaseBinding, find, max_generation, same_resource,
}
use second_brain_coordinatio.Broker.Admission.Compatibility.{max_generation-above}
use second_brain_coordinatio.Broker.Lifecycle.{
  has_lease_id, active_row, release_row, assert_effect_authorized, release,
}

find-All {ℓ} :
    {A : Type 0} (P : A → Type ℓ) (test : A → Bool) (xs : List A) {x : A}
    → find test xs ≡ some x
    → All P xs
    → (test x ≡ true) × P x
unfolding find
find-All P test [] h hs = cc
find-All P test (y ∷ xs) {x} h (p, ps) = elim (Bool-cases (test y)) [
  | inl fits ↦
      (let here = rw (find, fits) at h in
        subst (λ z. (test z ≡ true) × P z) (some_injective here) (fits, p))
  | inr skips ↦ find-All P test xs (rw (find, skips) at h) ps
]

-- The row that is found is active, has the id, and has what all rows have.
active_row-All :
    (P : LeaseRow → Type 0) (e : BrokerError) (id : Text) (rows : List LeaseRow) {r : LeaseRow}
    → active_row e id rows ≡ ok r
    → All P rows
    → (has_lease_id id r ≡ true) × (is_active_status r.status ≡ true) × P r
unfolding active_row
active_row-All P e id rows {r} h hs = by_found (find (has_lease_id id) rows) refl h
  where
    by_found :
        (o : Option LeaseRow)
        → find (has_lease_id id) rows ≡ o
        → (elim o [ none ↦ err e | some s ↦ (if is_active_status s.status then ok s else err e) ])
          ≡ ok r
        → (has_lease_id id r ≡ true) × (is_active_status r.status ≡ true) × P r
    by_found none at h = cc
    by_found (some s) at h =
        let (named, p) = find-All P (has_lease_id id) rows at hs in
        elim (Bool-cases (is_active_status s.status)) [
          | inl live ↦
              subst (λ z. (has_lease_id id z ≡ true) × (is_active_status z.status ≡ true) × P z)
                (ok_injective (rw live at h)) (named, live, p)
          | inr dead ↦ (let never = rw dead at h in cc)
        ]

-- The row is the one that the query finds.
active_row-find :
    (e : BrokerError) (id : Text) (rows : List LeaseRow) {r : LeaseRow}
    → active_row e id rows ≡ ok r
    → find (has_lease_id id) rows ≡ some r
unfolding active_row
active_row-find e id rows {r} h = by_found (find (has_lease_id id) rows) h
  where
    by_found :
        (o : Option LeaseRow)
        → (elim o [ none ↦ err e | some s ↦ (if is_active_status s.status then ok s else err e) ])
          ≡ ok r
        → o ≡ some r
    by_found none h = cc
    by_found (some s) h = elim (Bool-cases (is_active_status s.status)) [
      | inl live ↦ ap (λ z. some z) (ok_injective (rw live at h))
      | inr dead ↦ (let never = rw dead at h in cc)
    ]

-- What holds of every lease, and is kept when a lease is fenced, holds after the expiry.
expire_stale_leases-All :
    (P : LeaseRow → Type 0) (clock : ℕ → ℕ) (con : Connection)
    → ((ids : List Text) (r : LeaseRow) → P r → P (fence_row (clock con.reads) ids r))
    → All P con.db.resource_leases
    → All P (expire_stale_leases clock con).db.resource_leases
unfolding expire_stale_leases
expire_stale_leases-All P clock con kept h =
    rw (fence_executions-leases clock (clock con.reads) (run_out clock con) _) (
      All-map P (fence_row (clock con.reads) (run_out clock con)) con.db.resource_leases
        (All-weaken (kept (run_out clock con)) con.db.resource_leases h))

-- A lease row that matches a binding in every field that is checked.
pub record Matches (b : LeaseBinding) (r : LeaseRow) : Type 0 where
  pub same_id : r.lease_id ≡ b.lease_id
  pub same_execution : r.execution_id ≡ b.execution_id
  pub same_generation : r.generation ≡ b.generation
  pub same_token : r.fencing_token ≡ b.fencing_token

matches :
    (b : LeaseBinding) (r : LeaseRow)
    → has_lease_id b.lease_id r ≡ true
    → (not (text_eq r.execution_id b.execution_id)
        || not (r.generation == b.generation)
        || not (text_eq r.fencing_token b.fencing_token))
      ≡ false
    → Matches b r
matches b r named matched = record {
  same_id = (text_eq_iff r.lease_id b.lease_id).0 named;
  same_execution = ground (arith, text_eq_iff r.execution_id b.execution_id);
  same_generation = ground arith;
  same_token = ground (arith, text_eq_iff r.fencing_token b.fencing_token);
}

-- The checks that an authorized effect has passed.
assert_effect_authorized-row :
    (P : LeaseRow → Type 0) (clock : ℕ → ℕ) (b : LeaseBinding) (con after : Connection)
    → assert_effect_authorized clock b con ≡ ok after
    → All P (expire_stale_leases clock con).db.resource_leases
    → (r : LeaseRow) × (find (has_lease_id b.lease_id) after.db.resource_leases ≡ some r)
      × Matches b r
      × (is_active_status r.status ≡ true)
      × P r
      × (max_generation b.resource_type b.resource_id after.db.resource_leases ≤ b.generation)
unfolding assert_effect_authorized
assert_effect_authorized-row P clock b con after h ps =
    let con1 = expire_stale_leases clock con in
    let (row, found, h) =
      >>=-eq-ok (active_row lease_not_active b.lease_id con1.db.resource_leases) _ h in
    let (matched, h) =
      raise_if-ok
        (not (text_eq row.execution_id b.execution_id)
          || not (row.generation == b.generation)
          || not (text_eq row.fencing_token b.fencing_token))
        lease_mismatch _ h in
    let (newest, h) =
      raise_if-ok
        (not (max_generation b.resource_type b.resource_id con1.db.resource_leases == b.generation))
        newer_generation _ h in
    let (named, live, p) = active_row-All P _ _ _ found ps in
    (
      row,
      subst (λ c. find (has_lease_id b.lease_id) c.db.resource_leases ≡ some row) (ok_injective h)
          (active_row-find lease_not_active b.lease_id con1.db.resource_leases found),
      matches b row named matched,
      live,
      p,
      subst (λ c. max_generation b.resource_type b.resource_id c.db.resource_leases ≤ b.generation)
          (ok_injective h) (ground arith),
    )

-- An effect is authorized only where the table has a row under the lease id of the binding, which
-- is active, matches the binding in execution, generation and token, and has not run out at the first
-- reading of the clock; and no row of the resource has a higher generation than the binding.
pub assert_effect_authorized-current :
    (clock : ℕ → ℕ) (b : LeaseBinding) (con after : Connection)
    → assert_effect_authorized clock b con ≡ ok after
    → (r : LeaseRow) × (find (has_lease_id b.lease_id) after.db.resource_leases ≡ some r)
      × Matches b r
      × (is_active_status r.status ≡ true)
      × (clock con.reads < r.expires_at_ms)
      × All
          (λ s.
            same_resource b.resource_type b.resource_id s ≡ true → s.generation < b.generation + 1)
          after.db.resource_leases
assert_effect_authorized-current clock b con after h =
    let (row, stored, matched, live, unexpired, newest) =
      assert_effect_authorized-row (IsLive (clock con.reads) (run_out clock con)) clock b con after
        h (expire_stale_leases-atomic clock con).0 in
    (row, stored, matched, live, (unexpired live).0, max_generation-above _ _ _ _ newest)

-- A lease that is not active, if it is one of the execution.
abbrev Ended : Text → LeaseRow → Type 0
Ended id r = text_eq r.execution_id id ≡ true → is_active_status r.status ≡ false

ended-active :
    {A : Type 0} (b : LeaseBinding) (r : LeaseRow)
    → Matches b r
    → Ended b.execution_id r
    → is_active_status r.status ≡ true
    → A
ended-active b r matched over live =
    let off = over (rw matched.same_execution (text_eq_refl b.execution_id)) in ground arith

-- Where no lease of an execution is active, no binding of the execution is authorized.
unleased-revokes :
    (later : ℕ → ℕ) (b : LeaseBinding) (con : Connection)
    → All (Ended b.execution_id) con.db.resource_leases
    → is_ok (assert_effect_authorized later b con) ≡ false
unfolding fence_row
unleased-revokes later b con ended = elim (Result-cases (assert_effect_authorized later b con)) [
  | inr (e, failed) ↦ rw failed refl
  | inl (after, passed) ↦
      (let (row, _, matched, live, over, newest) =
          assert_effect_authorized-row (Ended b.execution_id) later b con after passed (
            expire_stale_leases-All (Ended b.execution_id) later con (λ ids r p own. ground arith)
              ended) in
        ended-active b row matched over live)
]

-- After a release, no binding of the execution is authorized, at any later time.
pub release-revokes :
    (clock later : ℕ → ℕ) (id terminal_state : Text) (b : LeaseBinding) (con con' : Connection)
    → release clock id terminal_state con ≡ ok con'
    → b.execution_id ≡ id
    → is_ok (assert_effect_authorized later b con') ≡ false
unfolding release release_row
release-revokes clock later id terminal_state b con con' h same = unleased-revokes later b con' (
    subst (λ c. All (Ended b.execution_id) c.db.resource_leases)
      (ok_injective (raise_if-ok _ execution_not_active _ h).1)
      (All-map (Ended b.execution_id) (release_row id (clock con.reads)) con.db.resource_leases
        (All-intro (λ r own. ground (arith, same)) con.db.resource_leases)))
