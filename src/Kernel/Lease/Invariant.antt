-- ===== src/Kernel/Lease/Invariant.antt =====
-- Sequences of calls of the `LeaseManager`, and where an active lease is pointed to.
use second_brain_coordinatio.Prelude.{
  ℕ, Text, text_eq, text_eq_iff, text_eq_refl, true, false, not, Option, none, some, List, [], ◌∷◌,
  ◌≡◌, refl, Result, ok, err, ◌>>=◌, lookup, lookup-insert, lookup-erase, length, arith, ◌==◌,
  ==_iff, ltb, Bool-cases, Option-cases, inl, inr, ◌⊎◌, if◌then◌else◌, raise_if,
}
use second_brain_coordinatio.Kernel.Lease.{
  LeaseStatus, is_active, RuntimeLease, LeaseError, LeaseManager, fetch, update, deref, find_id,
  find_domain, with_status, forget, retire, fence, renewed, renew, new_lease, grant, acquire_over,
  acquire, release, new_manager, cannot_renew, lease_conflict,
}
use second_brain_coordinatio.Kernel.Lease.Store.{map_found, fetch-update, fetch-append}

pub data Op : Type 0 where
  acquire_lease : (now : ℕ) (lease_id mission_id executor_id domain : Text) → Op
  renew_lease : (now : ℕ) (lease_id : Text) → Op
  release_lease : (lease_id : Text) → Op

abbrev pub after_call : LeaseManager → Result LeaseError (ℕ × LeaseManager) → LeaseManager
after_call m (ok r) = r.1
after_call m (err e) = m

abbrev pub after_release : LeaseManager → Result LeaseError LeaseManager → LeaseManager
after_release m (ok m') = m'
after_release m (err e) = m

-- A call that raises has changed nothing.
unfoldable pub perform : Op → LeaseManager → LeaseManager
perform (acquire_lease now k mission executor domain) m =
    after_call m (acquire now k mission executor domain m)
perform (renew_lease now k) m = after_call m (renew now k m)
perform (release_lease k) m = after_release m (release k m)

unfoldable pub run : List Op → LeaseManager → LeaseManager
unfolding perform
run [] m = m
run (op ∷ ops) m = run ops (perform op m)

pub record IsFenced (m : LeaseManager) : Type 0 where
  pub pointed :
      (a : ℕ) (l : RuntimeLease)
      → fetch a m.heap ≡ some l
      → is_active l.status ≡ true
      → lookup l.collision_domain m.by_domain ≡ some a

-- No active lease is on the domain.
abbrev IsFree : Text → LeaseManager → Type 0
IsFree domain m =
    (a : ℕ) (l : RuntimeLease)
    → fetch a m.heap ≡ some l
    → is_active l.status ≡ true
    → text_eq domain l.collision_domain ≡ false

grant-IsFenced :
    (now : ℕ) (k mission executor domain : Text) (m : LeaseManager)
    → IsFenced m
    → IsFree domain m
    → IsFenced (grant now k mission executor domain m).1
unfolding grant
grant-IsFenced now k mission executor domain m s free = record {
  pointed = λ a l h live.
      rw (lookup-insert domain l.collision_domain (length m.heap) m.by_domain)
        (at_address a l (Bool-cases (a == length m.heap)) (rw fetch-append at h) live);
}
  where
    at_address :
        (a : ℕ) (l : RuntimeLease)
        → ((a == length m.heap) ≡ true) ⊎ ((a == length m.heap) ≡ false)
        → (if a == length m.heap
            then some (new_lease now m.ttl_ms k mission executor domain)
            else fetch a m.heap)
          ≡ some l
        → is_active l.status ≡ true
        → (if text_eq domain l.collision_domain
            then some (length m.heap)
            else lookup l.collision_domain m.by_domain)
          ≡ some a
    at_address a l (inl same) h live = ground (arith, text_eq_refl domain)
    at_address a l (inr old) h live =
        let h' : fetch a m.heap ≡ some l = rw old at h in
        rw (free a l h' live) (s.pointed a l h' live)

-- An object keeps its domain under a change of its other attributes.
retire-IsFenced :
    (s : LeaseStatus) (a : ℕ) (l : RuntimeLease) (m : LeaseManager)
    → is_active s ≡ false
    → fetch a m.heap ≡ some l
    → IsFenced m
    → IsFenced (retire s a l m)
unfolding retire
retire-IsFenced s a l m ended at s_m = record {
  pointed = λ b x h live.
      moved b x (Bool-cases (a == b)) (rw (fetch-update a b (with_status s) m.heap) at h) live;
}
  where
    kept :
        (b : ℕ) (x : RuntimeLease)
        → (a == b) ≡ false
        → lookup x.collision_domain m.by_domain ≡ some b
        → lookup x.collision_domain (forget a l m.by_domain) ≡ some b
    kept b x other p = ground (
      arith,
      lookup-erase l.collision_domain x.collision_domain m.by_domain,
      text_eq_iff l.collision_domain x.collision_domain,
    )

    moved :
        (b : ℕ) (x : RuntimeLease)
        → ((a == b) ≡ true) ⊎ ((a == b) ≡ false)
        → (if a == b then map_found (with_status s) (fetch b m.heap) else fetch b m.heap) ≡ some x
        → is_active x.status ≡ true
        → lookup x.collision_domain (forget a l m.by_domain) ≡ some b
    moved b x (inl same) h live = ground (arith, (==_iff a b).0 same)
    moved b x (inr other) h live =
        let h' : fetch b m.heap ≡ some x = rw other at h in kept b x other (s_m.pointed b x h' live)

renewed-IsFenced :
    (now : ℕ) (a : ℕ) (l : RuntimeLease) (m : LeaseManager)
    → fetch a m.heap ≡ some l
    → IsFenced m
    → IsFenced (record m { heap = update a (renewed now m.ttl_ms) m.heap })
renewed-IsFenced now a l m at s = record {
  pointed = λ b x h live.
      moved b x (Bool-cases (a == b)) (rw (fetch-update a b (renewed now m.ttl_ms) m.heap) at h)
        live;
}
  where
    moved :
        (b : ℕ) (x : RuntimeLease)
        → ((a == b) ≡ true) ⊎ ((a == b) ≡ false)
        → (if a == b then map_found (renewed now m.ttl_ms) (fetch b m.heap) else fetch b m.heap)
          ≡ some x
        → is_active x.status ≡ true
        → lookup x.collision_domain m.by_domain ≡ some b
    moved b x (inl same) h live =
        let e : a ≡ b = (==_iff a b).0 same in ground (arith, s.pointed a l at, at, same, e)
    moved b x (inr other) h live =
        let h' : fetch b m.heap ≡ some x = rw other at h in s.pointed b x h' live

pub deref-eq_some :
    (heap : List RuntimeLease) (o : Option ℕ) (a : ℕ) (l : RuntimeLease)
    → deref heap o ≡ some (a, l)
    → (o ≡ some a) × (fetch a heap ≡ some l)
deref-eq_some heap none a l h = cc
deref-eq_some heap (some b) a l h = ground arith

pub deref-of_fetch :
    (heap : List RuntimeLease) (o : Option ℕ) (a : ℕ) (l : RuntimeLease)
    → o ≡ some a
    → fetch a heap ≡ some l
    → deref heap o ≡ some (a, l)
deref-of_fetch heap none a l p at = cc
deref-of_fetch heap (some b) a l p at = ground arith

renew-IsFenced :
    (now : ℕ) (k : Text) (m : LeaseManager) → IsFenced m → IsFenced (after_call m (renew now k m))
unfolding renew
renew-IsFenced now k m s = elim (Option-cases (find_id k m)) [
  | inl missing ↦ rw missing s
  | inr ((a, l), found) ↦
      rw found
        (by_status a l (deref-eq_some m.heap _ a l found).1 (Bool-cases (is_active l.status)))
]
  where
    by_status :
        (a : ℕ) (l : RuntimeLease)
        → fetch a m.heap ≡ some l
        → (is_active l.status ≡ true) ⊎ (is_active l.status ≡ false)
        → IsFenced (
            after_call m (
              raise_if (not (is_active l.status)) (cannot_renew k) >>= λ _.
              ok (a, record m { heap = update a (renewed now m.ttl_ms) m.heap })))
    by_status a l at (inl live) = rw live (renewed-IsFenced now a l m at s)
    by_status a l at (inr dead) = rw dead s

release-IsFenced :
    (k : Text) (m : LeaseManager) → IsFenced m → IsFenced (after_release m (release k m))
unfolding release
release-IsFenced k m s = elim (Option-cases (find_id k m)) [
  | inl missing ↦ rw missing s
  | inr ((a, l), found) ↦
      rw found
        (retire-IsFenced LeaseStatus.released a l m refl (deref-eq_some m.heap _ a l found).1 s)
]

-- A domain whose pointer leads to no active lease is free.
IsFree-of_domain :
    (domain : Text) (m : LeaseManager)
    → IsFenced m
    → ((a : ℕ) (l : RuntimeLease) → find_domain domain m ≡ some (a, l) → is_active l.status ≡ false)
    → IsFree domain m
IsFree-of_domain domain m s dead a l h live =
    elim (Bool-cases (text_eq domain l.collision_domain)) [
      | inr other ↦ other
      | inl same ↦ absurd (clash (dead a l (led ((text_eq_iff domain l.collision_domain).0 same))))
    ]
  where
    led : domain ≡ l.collision_domain → find_domain domain m ≡ some (a, l)
    led e = rw e (deref-of_fetch m.heap _ a l (s.pointed a l h live) h)

    clash : is_active l.status ≡ false → ⊥
    clash f = cc

-- Fencing the holder frees its domain.
IsFree-fence :
    (domain : Text) (a : ℕ) (held : RuntimeLease) (m : LeaseManager)
    → find_domain domain m ≡ some (a, held)
    → IsFenced m
    → IsFree domain (fence a held m)
unfolding fence retire
IsFree-fence domain a held m found s b x h live =
    freed (Bool-cases (a == b)) (rw (fetch-update a b (with_status LeaseStatus.fenced) m.heap) at h)
  where
    pointer : lookup domain m.by_domain ≡ some a
    pointer = (deref-eq_some m.heap (lookup domain m.by_domain) a held found).0

    freed :
        ((a == b) ≡ true) ⊎ ((a == b) ≡ false)
        → (if a == b
            then map_found (with_status LeaseStatus.fenced) (fetch b m.heap)
            else fetch b m.heap)
          ≡ some x
        → text_eq domain x.collision_domain ≡ false
    freed (inl same) h = ground arith
    freed (inr other) h =
        let h' : fetch b m.heap ≡ some x = rw other at h in
        ground (arith, s.pointed b x h' live, text_eq_iff domain x.collision_domain, pointer)

acquire-IsFenced :
    (now : ℕ) (k mission executor domain : Text) (m : LeaseManager)
    → IsFenced m
    → IsFenced (after_call m (acquire now k mission executor domain m))
unfolding acquire acquire_over
acquire-IsFenced now k mission executor domain m s = elim (Option-cases (find_domain domain m)) [
  | inl free ↦
      rw free (
        grant-IsFenced now k mission executor domain m s
          (IsFree-of_domain domain m s (λ a l h. cc)))
  | inr ((a, held), found) ↦ rw found (by_status a held found (Bool-cases (is_active held.status)))
]
  where
    by_expiry :
        (a : ℕ) (held : RuntimeLease)
        → find_domain domain m ≡ some (a, held)
        → (ltb now held.expiry_ts ≡ true) ⊎ (ltb now held.expiry_ts ≡ false)
        → IsFenced (
            after_call m (
              if ltb now held.expiry_ts
              then err (lease_conflict domain held.executor_id held.expiry_ts)
              else ok (grant now k mission executor domain (fence a held m))))
    by_expiry a held found (inl current) = rw current s
    by_expiry a held found (inr stale) = rw stale (
        grant-IsFenced now k mission executor domain (fence a held m)
          (unfold fence in
            retire-IsFenced LeaseStatus.fenced a held m refl (deref-eq_some m.heap _ a held found).1
              s)
          (IsFree-fence domain a held m found s))

    by_executor :
        (a : ℕ) (held : RuntimeLease)
        → find_domain domain m ≡ some (a, held)
        → (text_eq held.executor_id executor ≡ true) ⊎ (text_eq held.executor_id executor ≡ false)
        → IsFenced (
            after_call m (
              if text_eq held.executor_id executor
              then renew now held.lease_id m
              else if ltb now held.expiry_ts
              then err (lease_conflict domain held.executor_id held.expiry_ts)
              else ok (grant now k mission executor domain (fence a held m))))
    by_executor a held found (inl own) = rw own (renew-IsFenced now held.lease_id m s)
    by_executor a held found (inr other) =
        rw other (by_expiry a held found (Bool-cases (ltb now held.expiry_ts)))

    by_status :
        (a : ℕ) (held : RuntimeLease)
        → find_domain domain m ≡ some (a, held)
        → (is_active held.status ≡ true) ⊎ (is_active held.status ≡ false)
        → IsFenced (after_call m (acquire_over (some (a, held)) now k mission executor domain m))
    by_status a held found (inl live) =
        rw live (by_executor a held found (Bool-cases (text_eq held.executor_id executor)))
    by_status a held found (inr dead) = rw dead (
        grant-IsFenced now k mission executor domain m s
          (IsFree-of_domain domain m s (λ b l h. ground arith)))

run-IsFenced : (ops : List Op) (m : LeaseManager) → IsFenced m → IsFenced (run ops m)
unfolding run
run-IsFenced [] m s = s
run-IsFenced (acquire_lease now k mission executor domain ∷ ops) m s =
    run-IsFenced ops _ (acquire-IsFenced now k mission executor domain m s)
run-IsFenced (renew_lease now k ∷ ops) m s = run-IsFenced ops _ (renew-IsFenced now k m s)
run-IsFenced (release_lease k ∷ ops) m s = run-IsFenced ops _ (release-IsFenced k m s)

new_manager-IsFenced : (ttl : ℕ) → IsFenced (new_manager ttl)
unfolding new_manager fetch
new_manager-IsFenced ttl = record { pointed = λ a l h live. cc }

-- After any calls on a new manager, two active leases on one collision domain are one object.
pub run_exclusive :
    (ttl : ℕ) (ops : List Op) (a b : ℕ) {x y : RuntimeLease}
    → fetch a (run ops (new_manager ttl)).heap ≡ some x
    → fetch b (run ops (new_manager ttl)).heap ≡ some y
    → is_active x.status ≡ true
    → is_active y.status ≡ true
    → x.collision_domain ≡ y.collision_domain
    → a ≡ b
run_exclusive ttl ops a b {x} {y} hx hy live_x live_y same =
    let s = run-IsFenced ops (new_manager ttl) (new_manager-IsFenced ttl) in
    cc (s.pointed a x hx live_x, s.pointed b y hy live_y)
