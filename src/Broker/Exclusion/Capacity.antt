-- ===== src/Broker/Exclusion/Capacity.antt =====
-- The units of the active leases on one resource that has a capacity.
use mathlib.Core.Path.{subst}
use second_brain_coordinatio.Prelude.{
  ℕ, ◌+◌, ◌≤◌, Text, text_eq, Bool, true, false, ◌&&◌, List, [], ◌∷◌, map, ◌≡◌, ◌⊎◌, refl, arith,
  inl, inr, if◌then◌else◌, select, length,
}
use second_brain_coordinatio.Broker.Models.{ResourceType, same_type, ResourceClaim}
use second_brain_coordinatio.Broker.Store.{LeaseRow, is_active_status}
use second_brain_coordinatio.Broker.Rules.{used_units, same_resource}
use second_brain_coordinatio.Broker.Exclusion.{Calms}

-- The active leases on a resource.
abbrev pub holders : ResourceType → Text → List LeaseRow → List LeaseRow
holders t id = select (λ r. same_resource t id r && is_active_status r.status)

-- A first row that is kept only where another one with its units was.
cons-le :
    (kept before : Bool) (x y : LeaseRow) (xs ys : List LeaseRow)
    → (kept ≡ true → before ≡ true)
    → x.units ≡ y.units
    → (length xs ≤ length ys) × (used_units xs ≤ used_units ys)
    → (length (if kept then x ∷ xs else xs) ≤ length (if before then y ∷ ys else ys))
      × (used_units (if kept then x ∷ xs else xs) ≤ used_units (if before then y ∷ ys else ys))
unfolding used_units
cons-le true true x y xs ys h same (l, u) = (omega (arith, l), omega (arith, u, same))
cons-le true false x y xs ys h same (l, u) = (let never = h refl in cc)
cons-le false true x y xs ys h same (l, u) = (omega (arith, l), omega (arith, u))
cons-le false false x y xs ys h same (l, u) = (l, u)

module _ (t : ResourceType) (id : Text) (capacity : ℕ) where
  -- One holder at most, or holders whose units are within the capacity.
  abbrev pub Fits : List LeaseRow → Type 0
  Fits rows = (length (holders t id rows) ≤ 1) ⊎ (used_units (holders t id rows) ≤ capacity)

  -- Room for a claim on the resource.
  abbrev pub Room : ResourceClaim → List LeaseRow → Type 0
  Room c rows =
      (same_type c.resource_type t ≡ true)
      → (text_eq c.resource_id id ≡ true)
      → (holders t id rows ≡ []) ⊎ (used_units (holders t id rows) + c.units ≤ capacity)

  still_holds :
      (x r : LeaseRow)
      → x.resource_type ≡ r.resource_type
      → x.resource_id ≡ r.resource_id
      → (is_active_status x.status ≡ true → is_active_status r.status ≡ true)
      → (same_resource t id x && is_active_status x.status) ≡ true
      → (same_resource t id r && is_active_status r.status) ≡ true
  still_holds x r types names live h = let h' = rw (types, names) at h in ground (arith, h', live)

  -- A change of rows by which the holders become no more, and their units neither.
  holders-map :
      (f : LeaseRow → LeaseRow) (rows : List LeaseRow)
      → Calms f
      → (length (holders t id (map f rows)) ≤ length (holders t id rows))
        × (used_units (holders t id (map f rows)) ≤ used_units (holders t id rows))
  unfolding used_units
  holders-map f [] calm = (omega arith, omega arith)
  holders-map f (r ∷ rs) calm =
      cons-le (same_resource t id (f r) && is_active_status (f r).status)
        (same_resource t id r && is_active_status r.status) (f r) r _ _
        (still_holds (f r) r (calm.same_type_of r) (calm.same_id_of r) (calm.active_before r))
        (calm.same_units_of r) (holders-map f rs calm)

  pub Fits-map :
      (f : LeaseRow → LeaseRow) (rows : List LeaseRow) → Calms f → Fits rows → Fits (map f rows)
  Fits-map f rows calm h =
      let le = holders-map f rows calm in
      elim h [
        | inl few ↦ inl (omega (arith, le.0, few))
        | inr within ↦ inr (omega (arith, le.1, within))
      ]

  none_held : (rows : List LeaseRow) → length rows ≤ 0 → rows ≡ []
  none_held [] h = refl
  none_held (r ∷ rs) h = absurd (omega (arith, h))

  pub Room-map :
      (c : ResourceClaim) (f : LeaseRow → LeaseRow) (rows : List LeaseRow)
      → Calms f
      → Room c rows
      → Room c (map f rows)
  Room-map c f rows calm h one_type one_id =
      let le = holders-map f rows calm in
      elim (h one_type one_id) [
        | inl free ↦ inl (
            none_held (holders t id (map f rows))
              (subst (λ rs. length (holders t id (map f rows)) ≤ length rs) free le.0))
        | inr within ↦ inr (omega (arith, le.1, within))
      ]
