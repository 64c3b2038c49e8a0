-- ===== src/Kernel/Lease.antt =====
-- tools/durable_mission_kernel/lease.py: `LeaseManager`. A lease object is shared by the two dicts,
-- so it lives in a store under a number, and the dicts hold numbers; object identity is equality
-- of the numbers.
mod Store
mod Invariant
mod Laws
mod Tests
use second_brain_coordinatio.Prelude.{
  ℕ, zero, suc, ◌+◌, Text, text_eq, Bool, true, false, not, ◌&&◌, Option, none, some, List, [], ◌∷◌,
  ◌++◌, Result, ok, err, ◌>>=◌, ◌>>◌, raise_if, Dict, lookup, insert, erase, length, ◌==◌, ltb, leb,
  select, if◌then◌else◌,
}

-- `LeaseStatus`
pub data LeaseStatus : Type 0 where
  active expired fenced released : LeaseStatus

abbrev pub is_active : LeaseStatus → Bool
is_active LeaseStatus.active = true
is_active _ = false

abbrev pub is_fenced_status : LeaseStatus → Bool
is_fenced_status LeaseStatus.fenced = true
is_fenced_status _ = false

pub record RuntimeLease : Type 0 where
  pub lease_id : Text
  pub mission_id : Text
  pub executor_id : Text
  pub collision_domain : Text
  pub start_ts : ℕ
  pub expiry_ts : ℕ
  pub renewed_ts : ℕ
  pub status : LeaseStatus

-- `LeaseError`, and `key_error` for a subscript that is missing.
pub data LeaseError : Type 0 where
  lease_conflict : Text → Text → ℕ → LeaseError
  cannot_renew fenced_out key_error : Text → LeaseError

pub record LeaseManager : Type 0 where
  pub ttl_ms : ℕ
  -- the lease objects, by the order of their creation
  pub heap : List RuntimeLease
  pub by_domain : Dict ℕ
  pub by_id : Dict ℕ

-- The object at an address.
unfoldable pub fetch : ℕ → List RuntimeLease → Option RuntimeLease
fetch a [] = none
fetch zero (x ∷ xs) = some x
fetch (suc a) (x ∷ xs) = fetch a xs

-- An assignment to attributes of the object at an address.
unfoldable pub update : ℕ → (RuntimeLease → RuntimeLease) → List RuntimeLease → List RuntimeLease
update a f [] = []
update zero f (x ∷ xs) = f x ∷ xs
update (suc a) f (x ∷ xs) = x ∷ update a f xs

-- `d.get(k)`, with the object that it leads to
abbrev pub deref : List RuntimeLease → Option ℕ → Option (ℕ × RuntimeLease)
deref heap none = none
deref heap (some a) = elim (fetch a heap) [ none ↦ none | some l ↦ some (a, l) ]

abbrev pub find_id : Text → LeaseManager → Option (ℕ × RuntimeLease)
find_id k m = deref m.heap (lookup k m.by_id)

abbrev pub find_domain : Text → LeaseManager → Option (ℕ × RuntimeLease)
find_domain k m = deref m.heap (lookup k m.by_domain)

abbrev pub with_status : LeaseStatus → RuntimeLease → RuntimeLease
with_status s l = record l { status = s }

abbrev pub is_at : ℕ → Option ℕ → Bool
is_at a none = false
is_at a (some b) = a == b

-- `if self._by_domain.get(lease.collision_domain) is lease: del ...`
abbrev pub forget : ℕ → RuntimeLease → Dict ℕ → Dict ℕ
forget a l d = if is_at a (lookup l.collision_domain d) then erase l.collision_domain d else d

-- The common part of `release` and `_fence`.
unfoldable pub retire : LeaseStatus → ℕ → RuntimeLease → LeaseManager → LeaseManager
unfolding update
retire s a l m = record m {
  heap = update a (with_status s) m.heap;
  by_domain = forget a l m.by_domain;
}

-- `_fence`
unfoldable pub fence : ℕ → RuntimeLease → LeaseManager → LeaseManager
unfolding retire
fence = retire LeaseStatus.fenced

abbrev pub or_key_error : Text → Option (ℕ × RuntimeLease) → Result LeaseError (ℕ × RuntimeLease)
or_key_error k none = err (key_error k)
or_key_error k (some x) = ok x

abbrev pub renewed : ℕ → ℕ → RuntimeLease → RuntimeLease
renewed now ttl l = record l { renewed_ts = now; expiry_ts = now + ttl }

-- `now` is the clock in milliseconds at the call.
unfoldable pub renew : ℕ → Text → LeaseManager → Result LeaseError (ℕ × LeaseManager)
unfolding update
renew now lease_id m = do
  found ← or_key_error lease_id (find_id lease_id m)
  raise_if (not (is_active found.1.status)) (cannot_renew lease_id)
  ok (found.0, record m { heap = update found.0 (renewed now m.ttl_ms) m.heap })

abbrev pub new_lease : ℕ → ℕ → Text → Text → Text → Text → RuntimeLease
new_lease now ttl lease_id mission_id executor_id domain = record {
  lease_id = lease_id;
  mission_id = mission_id;
  executor_id = executor_id;
  collision_domain = domain;
  start_ts = now;
  expiry_ts = now + ttl;
  renewed_ts = now;
  status = LeaseStatus.active;
}

-- The new lease at the end of `acquire`.
unfoldable pub grant : ℕ → Text → Text → Text → Text → LeaseManager → ℕ × LeaseManager
grant now lease_id mission_id executor_id domain m = (
  length m.heap,
  record m {
    heap = m.heap ++ new_lease now m.ttl_ms lease_id mission_id executor_id domain ∷ [];
    by_domain = insert domain (length m.heap) m.by_domain;
    by_id = insert lease_id (length m.heap) m.by_id;
  },
)

-- The branches of `acquire` on the lease that holds the domain.
unfoldable pub acquire_over :
    Option (ℕ × RuntimeLease)
    → ℕ
    → Text
    → Text
    → Text
    → Text
    → LeaseManager
    → Result LeaseError (ℕ × LeaseManager)
unfolding grant fence renew
acquire_over none now lease_id mission_id executor_id domain m =
    ok (grant now lease_id mission_id executor_id domain m)
acquire_over (some (a, held)) now lease_id mission_id executor_id domain m =
    if is_active held.status
    then (if text_eq held.executor_id executor_id
        then renew now held.lease_id m
        else if ltb now held.expiry_ts
        then err (lease_conflict domain held.executor_id held.expiry_ts)
        else ok (grant now lease_id mission_id executor_id domain (fence a held m)))
    else ok (grant now lease_id mission_id executor_id domain m)

unfoldable pub acquire :
    ℕ → Text → Text → Text → Text → LeaseManager → Result LeaseError (ℕ × LeaseManager)
unfolding acquire_over
acquire now lease_id mission_id executor_id domain m =
    acquire_over (find_domain domain m) now lease_id mission_id executor_id domain m

unfoldable pub release : Text → LeaseManager → Result LeaseError LeaseManager
unfolding retire
release lease_id m = do
  found ← or_key_error lease_id (find_id lease_id m)
  ok (retire LeaseStatus.released found.0 found.1 m)

unfoldable pub is_fenced : Text → LeaseManager → Bool
is_fenced lease_id m = elim (find_id lease_id m) [
  | none ↦ true
  | some (a, l) ↦ is_fenced_status l.status
]

unfoldable pub assert_can_emit_effects : Text → LeaseManager → Result LeaseError Unit
assert_can_emit_effects lease_id m = elim (find_id lease_id m) [
  | none ↦ err (fenced_out lease_id)
  | some (a, l) ↦ raise_if (not (is_active l.status)) (fenced_out lease_id)
]

abbrev pub is_stale : ℕ → RuntimeLease → Bool
is_stale now l = is_active l.status && leb l.expiry_ts now

-- The objects of the values of `_by_id`.
unfoldable pub leases_by_id : Dict ℕ → List RuntimeLease → List RuntimeLease
unfolding fetch
leases_by_id [] heap = []
leases_by_id ((k, a) ∷ d) heap =
    let rest = leases_by_id d heap in elim (fetch a heap) [ none ↦ rest | some l ↦ l ∷ rest ]

unfoldable pub stale_leases : ℕ → LeaseManager → List RuntimeLease
unfolding leases_by_id
stale_leases now m = select (is_stale now) (leases_by_id m.by_id m.heap)

unfoldable pub new_manager : ℕ → LeaseManager
new_manager ttl = record { ttl_ms = ttl; heap = []; by_domain = []; by_id = [] }
