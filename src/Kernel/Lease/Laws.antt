-- ===== src/Kernel/Lease/Laws.antt =====
-- What `acquire` and `release` do to the lease that was there before.
use mathlib.Core.Path.{subst}
use second_brain_coordinatio.Prelude.{
  ℕ, ◌+◌, ◌≤◌, ◌↔◌, none, ok_injective, Text, text_eq, text_eq_iff, text_eq_refl, true, false, not,
  some, ◌≡◌, ◌≢◌, refl, Result, ok, err, is_ok, lookup, lookup-insert, length, arith, ltb,
  if◌then◌else◌, Option-cases, inl, inr, raise_if,
}
use second_brain_coordinatio.Kernel.Lease.{
  LeaseStatus, is_active, is_fenced_status, new_lease, RuntimeLease, LeaseError, lease_conflict,
  fenced_out, LeaseManager, find_id, find_domain, retire, fence, grant, acquire_over, acquire,
  release, renew, key_error, is_fenced, assert_can_emit_effects, with_status,
}
use second_brain_coordinatio.Kernel.Lease.Invariant.{deref-eq_some, deref-of_fetch}
use second_brain_coordinatio.Kernel.Lease.Store.{fetch-update, fetch-append, fetch-lt}

acquire-eq_grant :
    (now : ℕ) (k mission executor domain : Text) (m : LeaseManager) (a : ℕ) (held : RuntimeLease)
    (r : ℕ × LeaseManager)
    → find_domain domain m ≡ some (a, held)
    → is_active held.status ≡ true
    → held.executor_id ≢ executor
    → acquire now k mission executor domain m ≡ ok r
    → r ≡ grant now k mission executor domain (fence a held m)
unfolding acquire acquire_over
acquire-eq_grant now k mission executor domain m a held r found live other h =
    by_cases (rw (found, live) at h)
  where
    by_cases :
        (if text_eq held.executor_id executor
            then renew now held.lease_id m
            else if ltb now held.expiry_ts
            then err (lease_conflict domain held.executor_id held.expiry_ts)
            else ok (grant now k mission executor domain (fence a held m)))
          ≡ ok r
        → r ≡ grant now k mission executor domain (fence a held m)
    by_cases h = ground (arith, text_eq_iff held.executor_id executor)

-- What the two questions answer follows from the lease that the id leads to.
by_found :
    (j : Text) (m : LeaseManager) (a : ℕ) (l : RuntimeLease)
    → find_id j m ≡ some (a, l)
    → (is_fenced j m ≡ is_fenced_status l.status)
      × (assert_can_emit_effects j m ≡ raise_if (not (is_active l.status)) (fenced_out j))
unfolding is_fenced assert_can_emit_effects
by_found j m a l h = ground arith

-- The new id leads to the new lease.
find_id-grant :
    (now : ℕ) (k mission executor domain : Text) (m : LeaseManager)
    → find_id k (grant now k mission executor domain m).1
      ≡ some (length m.heap, new_lease now m.ttl_ms k mission executor domain)
unfolding grant
find_id-grant now k mission executor domain m =
    deref-of_fetch _ _ (length m.heap) _
      (rw (lookup-insert k k (length m.heap) m.by_id, text_eq_refl k) refl)
      (rw (fetch-append (length m.heap) m.heap (new_lease now m.ttl_ms k mission executor domain))
        (ground arith))

-- Another id leads where it led.
find_id-grant_ne :
    (now : ℕ) (k j mission executor domain : Text) (m : LeaseManager) (a : ℕ) (l : RuntimeLease)
    → k ≢ j
    → find_id j m ≡ some (a, l)
    → find_id j (grant now k mission executor domain m).1 ≡ some (a, l)
unfolding grant
find_id-grant_ne now k j mission executor domain m a l ne h =
    let (pointer, at) = deref-eq_some m.heap (lookup j m.by_id) a l h in
    let x = new_lease now m.ttl_ms k mission executor domain in
    deref-of_fetch _ _ a l
      (ground (arith, lookup-insert k j (length m.heap) m.by_id, text_eq_iff k j, pointer))
      (ground (arith, fetch-append a m.heap x, fetch-lt a m.heap at, at))

-- The domain of a grant leads to the new lease.
find_domain-grant :
    (now : ℕ) (k mission executor domain : Text) (m : LeaseManager)
    → find_domain domain (grant now k mission executor domain m).1
      ≡ some (length m.heap, new_lease now m.ttl_ms k mission executor domain)
unfolding grant
find_domain-grant now k mission executor domain m =
    deref-of_fetch _ _ (length m.heap) _
      (rw (lookup-insert domain domain (length m.heap) m.by_domain, text_eq_refl domain) refl)
      (rw (fetch-append (length m.heap) m.heap (new_lease now m.ttl_ms k mission executor domain))
        (ground arith))

-- A domain that nobody holds, once it is acquired, keeps another executor out for the time to live
-- of the manager and no longer: a second call of `acquire` returns exactly from the moment at which
-- that time is over.
pub acquire-acquire :
    (start later : ℕ) (k j mission other_mission executor other domain : Text) (m : LeaseManager)
    (r : ℕ × LeaseManager)
    → find_domain domain m ≡ none
    → executor ≢ other
    → acquire start k mission executor domain m ≡ ok r
    → (is_ok (acquire later j other_mission other domain r.1) ≡ true) ↔ (start + m.ttl_ms ≤ later)
unfolding acquire acquire_over
acquire-acquire start later k j mission other_mission executor other domain m r free apart h =
    let granted = ok_injective (rw free at h) in
    let held = find_domain-grant start k mission executor domain m in
    subst
      (λ (x : ℕ × LeaseManager).
        (is_ok (acquire later j other_mission other domain x.1) ≡ true)
        ↔ (start + m.ttl_ms ≤ later))
      granted
      (rw held (
        λ e. ground (arith, text_eq_iff executor other),
        λ e. ground (arith, text_eq_iff executor other),
      ))

find_id-retire :
    (s : LeaseStatus) (j : Text) (m : LeaseManager) (a : ℕ) (l : RuntimeLease)
    → find_id j m ≡ some (a, l)
    → find_id j (retire s a l m) ≡ some (a, with_status s l)
unfolding retire
find_id-retire s j m a l h =
    let (pointer, at) = deref-eq_some m.heap (lookup j m.by_id) a l h in
    deref-of_fetch _ _ a _ pointer (ground (arith, fetch-update a a (with_status s) m.heap, at))

-- Where another executor holds the domain with an active lease that is the one under its id, and
-- `acquire` returns under a new lease id, the old lease can emit no effect and is fenced, and the new
-- one can emit effects.
pub acquire_replaces :
    (now : ℕ) (k mission executor domain : Text) (m : LeaseManager) (a : ℕ) (held : RuntimeLease)
    (r : ℕ × LeaseManager)
    → find_domain domain m ≡ some (a, held)
    → find_id held.lease_id m ≡ some (a, held)
    → is_active held.status ≡ true
    → held.executor_id ≢ executor
    → k ≢ held.lease_id
    → acquire now k mission executor domain m ≡ ok r
    → (is_fenced held.lease_id r.1 ≡ true)
      × (assert_can_emit_effects held.lease_id r.1 ≡ err (fenced_out held.lease_id))
      × (assert_can_emit_effects k r.1 ≡ ok tt)
unfolding fence
acquire_replaces now k mission executor domain m a held r found by_id live other new_id h =
    rw (acquire-eq_grant now k mission executor domain m a held r found live other h) (
      let fenced = fence a held m in
      let old =
        by_found held.lease_id (grant now k mission executor domain fenced).1 a
          (with_status LeaseStatus.fenced held)
          (find_id-grant_ne now k held.lease_id mission executor domain fenced a
            (with_status LeaseStatus.fenced held) new_id
            (find_id-retire LeaseStatus.fenced held.lease_id m a held by_id)) in
      (
        old.0,
        old.1,
        (by_found k (grant now k mission executor domain fenced).1 _ _
            (find_id-grant now k mission executor domain fenced)).1,
      ))

-- A lease that is released can emit no effect, and `is_fenced` says False of it, whether it was
-- fenced before or not.
pub release_ends :
    (k : Text) (m m' : LeaseManager)
    → release k m ≡ ok m'
    → (assert_can_emit_effects k m' ≡ err (fenced_out k)) × (is_fenced k m' ≡ false)
unfolding release
release_ends k m m' h = elim (Option-cases (find_id k m)) [
  | inl missing ↦ absurd (unknown (rw missing at h))
  | inr ((a, l), found) ↦ ended a l found (rw found at h)
]
  where
    unknown : ◌≡◌ {A = Result LeaseError LeaseManager} (err (key_error k)) (ok m') → ⊥
    unknown e = cc

    ended :
        (a : ℕ) (l : RuntimeLease)
        → find_id k m ≡ some (a, l)
        → ◌≡◌ {A = Result LeaseError LeaseManager} (ok (retire LeaseStatus.released a l m)) (ok m')
        → (assert_can_emit_effects k m' ≡ err (fenced_out k)) × (is_fenced k m' ≡ false)
    ended a l found e =
        let after =
          by_found k (retire LeaseStatus.released a l m) a (with_status LeaseStatus.released l)
            (find_id-retire LeaseStatus.released k m a l found) in
        subst (λ n. (assert_can_emit_effects k n ≡ err (fenced_out k)) × (is_fenced k n ≡ false))
          (cc) (after.1, after.0)
