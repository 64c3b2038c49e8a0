-- ===== src/Kernel/Lease/Store.antt =====
-- The store of lease objects: reading after a write and after an allocation.
use second_brain_coordinatio.Prelude.{
  ℕ, zero, suc, ◌<◌, Option, none, some, List, [], ◌∷◌, ◌++◌, ◌≡◌, refl, length, arith, ◌==◌,
  if◌then◌else◌,
}
use second_brain_coordinatio.Kernel.Lease.{RuntimeLease, fetch, update}

abbrev pub map_found : (RuntimeLease → RuntimeLease) → Option RuntimeLease → Option RuntimeLease
map_found f none = none
map_found f (some l) = some (f l)

pub fetch-update :
    (a b : ℕ) (f : RuntimeLease → RuntimeLease) (heap : List RuntimeLease)
    → fetch b (update a f heap) ≡ (if a == b then map_found f (fetch b heap) else fetch b heap)
unfolding fetch update
fetch-update a b f [] = ground arith
fetch-update zero zero f (x ∷ xs) = refl
fetch-update zero (suc b) f (x ∷ xs) = ground arith
fetch-update (suc a) zero f (x ∷ xs) = ground arith
fetch-update (suc a) (suc b) f (x ∷ xs) = ground (arith, fetch-update a b f xs)

pub fetch-append :
    (b : ℕ) (heap : List RuntimeLease) (x : RuntimeLease)
    → fetch b (heap ++ x ∷ []) ≡ (if b == length heap then some x else fetch b heap)
unfolding fetch
fetch-append zero [] x = refl
fetch-append (suc b) [] x = ground arith
fetch-append zero (y ∷ heap) x = ground arith
fetch-append (suc b) (y ∷ heap) x = ground (arith, fetch-append b heap x)

-- An address that holds an object lies below the length of the store.
pub fetch-lt :
    (a : ℕ) (heap : List RuntimeLease) {l : RuntimeLease} → fetch a heap ≡ some l → a < length heap
unfolding fetch
fetch-lt a [] h = cc
fetch-lt zero (x ∷ xs) h = omega arith
fetch-lt (suc a) (x ∷ xs) h = omega (arith, fetch-lt a xs h)
