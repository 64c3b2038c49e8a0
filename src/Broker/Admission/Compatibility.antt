-- ===== src/Broker/Admission/Compatibility.antt =====
-- When a claim fits beside the leases that are active, and the generation of a new lease.
use second_brain_coordinatio.Prelude.{
  ℕ, ◌+◌, ◌≤◌, ◌<◌, Text, true, false, none, some, List, [], ◌∷◌, ◌≡◌, arith, All, all, ◌⊎◌, inl,
  inr, ◌↔◌, Option-cases,
}
use second_brain_coordinatio.Broker.Models.{ResourceType, ResourceClaim}
use second_brain_coordinatio.Broker.Store.{LeaseRow}
use second_brain_coordinatio.Broker.Admission.{new_lease}
use second_brain_coordinatio.Broker.Rules.{
  always_exclusive, read_shareable, is_read, capacity_of, used_units, claim_compatible,
  HostExecutionBroker, max_generation, same_resource,
}

-- The rules of sharing: units within the capacity where the type has one, or else only readers of a
-- type that readers may share.
abbrev pub Shares : List (ResourceType × ℕ) → ResourceClaim → List LeaseRow → Type 0
Shares capacities claim rows =
    ((capacity : ℕ) × (capacity_of claim.resource_type capacities ≡ some capacity)
      × (used_units rows + claim.units ≤ capacity))
    ⊎ ((capacity_of claim.resource_type capacities ≡ none)
        × (read_shareable claim.resource_type ≡ true)
        × (is_read claim.mode ≡ true)
        × (all (λ r. is_read r.mode) rows ≡ true))

-- A claim fits beside at least one active lease exactly when it is not exclusive, its type is not
-- always exclusive, and it shares by capacity or as a reader among readers.
pub claim_compatible-shared_iff :
    (capacities : List (ResourceType × ℕ)) (claim : ResourceClaim) (r : LeaseRow)
    (rs : List LeaseRow)
    → ((claim_compatible capacities claim (r ∷ rs)).0 ≡ true) ↔ (
        (claim.exclusive ≡ false)
        × (always_exclusive claim.resource_type ≡ false)
        × Shares capacities claim (r ∷ rs))
unfolding claim_compatible
claim_compatible-shared_iff capacities claim r rs =
    elim (Option-cases (capacity_of claim.resource_type capacities)) [
      | inr (capacity, known) ↦ (
        λ h. (ground arith, ground arith, inl (capacity, known, ground arith)),
        λ h. ground arith,
      )
      | inl unlimited ↦ (
        λ h.
            (ground arith, ground arith, inr (unlimited, ground arith, ground arith, ground arith)),
        λ h. ground arith,
      )
    ]

pub max_generation-above :
    (t : ResourceType) (id : Text) (m : ℕ) (rows : List LeaseRow)
    → max_generation t id rows ≤ m
    → All (λ r. same_resource t id r ≡ true → r.generation < m + 1) rows
unfolding max_generation
max_generation-above t id m [] h = tt
max_generation-above t id m (r ∷ rs) h =
    (λ same. ground arith, max_generation-above t id m rs (ground arith))

-- The generation of a new lease is above that of every earlier lease of the resource.
pub new_lease-above :
    (sha256 nfc casefold : Text → Text) (clock : ℕ → ℕ) (token : ℕ → Text)
    (broker : HostExecutionBroker) (n now : ℕ) (execution_id : Text) (claim : ResourceClaim)
    (rows : List LeaseRow)
    → All
        (λ r.
          same_resource claim.resource_type claim.resource_id r ≡ true
          → r.generation
            < (new_lease sha256 nfc casefold clock token broker n now execution_id claim
                rows).generation)
        rows
unfolding new_lease
new_lease-above sha256 nfc casefold clock token broker n now execution_id claim rows =
    max_generation-above _ _ _ rows (omega arith)
