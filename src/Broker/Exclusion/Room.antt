-- ===== src/Broker/Exclusion/Room.antt =====
-- What the two loops of `admit` do to the units on a resource that has a capacity.
use mathlib.Core.Path.{subst}
use second_brain_coordinatio.Prelude.{
  ℕ, suc, ◌+◌, ◌≤◌, Text, text_eq, text_eq_iff, true, false, ◌&&◌, some, List, [], ◌∷◌, ◌++◌, ◌≡◌,
  ◌⊎◌, refl, sym, ap, ◌∙◌, arith, Bool-cases, inl, inr, if◌then◌else◌, select, select-append,
  length, append-nil, All, All-weaken, All-both, ok, ok_injective, some_injective, >>=-eq-ok,
  raise_if-ok,
}
use second_brain_coordinatio.Broker.Models.{
  ResourceType, type_value, same_type, is_write_surface, ResourceClaim,
}
use second_brain_coordinatio.Broker.Request.Distinct.{Apart, Distinct}
use second_brain_coordinatio.Broker.Store.{LeaseRow, is_active_status, empty_database}
use second_brain_coordinatio.Broker.Admission.{grant_claims, new_lease}
use second_brain_coordinatio.Broker.Rules.{
  HostExecutionBroker, LeaseBinding, capacity_of, used_units, claim_compatible, same_resource,
  active_leases, integrity_error,
}
use second_brain_coordinatio.Broker.Admission.Compatibility.{claim_compatible-shared_iff}
use second_brain_coordinatio.Broker.Exclusion.Capacity.{holders, Fits, Room, Fits-map, Room-map}
use second_brain_coordinatio.Broker.Exclusion.Claims.{check_claims-found}
use second_brain_coordinatio.Broker.Exclusion.Calls.{Op, run, run-keeps}

-- Whether a type is that of write surfaces can be read from its value.
is_write_surface-type_value :
    (t : ResourceType)
    → is_write_surface t ≡ text_eq (type_value t) (type_value ResourceType.write_surface)
is_write_surface-type_value ResourceType.host = refl
is_write_surface-type_value ResourceType.rdc_process_mutation_channel = refl
is_write_surface-type_value ResourceType.workbuddy_daemon = refl
is_write_surface-type_value ResourceType.workbuddy_agent_session = refl
is_write_surface-type_value ResourceType.workbuddy_one_time_runner = refl
is_write_surface-type_value ResourceType.codex_session = refl
is_write_surface-type_value ResourceType.local_port = refl
is_write_surface-type_value ResourceType.worktree = refl
is_write_surface-type_value ResourceType.branch = refl
is_write_surface-type_value ResourceType.collision_domain = refl
is_write_surface-type_value ResourceType.write_surface = refl
is_write_surface-type_value ResourceType.cpu_light = refl
is_write_surface-type_value ResourceType.cpu_heavy = refl
is_write_surface-type_value ResourceType.gpu_local = refl
is_write_surface-type_value ResourceType.market_data_provider = refl
is_write_surface-type_value ResourceType.exclusive_local_runtime = refl

is_write_surface-same :
    (s t : ResourceType) → type_value s ≡ type_value t → is_write_surface s ≡ is_write_surface t
is_write_surface-same s t same =
    is_write_surface-type_value s
    ∙ ap (λ v. text_eq v (type_value ResourceType.write_surface)) same
    ∙ sym (is_write_surface-type_value t)

capacity_of-same :
    (s t : ResourceType) (capacities : List (ResourceType × ℕ))
    → type_value s ≡ type_value t
    → capacity_of s capacities ≡ capacity_of t capacities
unfolding capacity_of
capacity_of-same s t [] same = refl
capacity_of-same s t ((u, n) ∷ d) same = rw (same, capacity_of-same s t d same) refl

used_units-append : (xs ys : List LeaseRow) → used_units (xs ++ ys) ≡ used_units xs + used_units ys
unfolding used_units
used_units-append [] ys = omega arith
used_units-append (x ∷ xs) ys = omega (arith, used_units-append xs ys)

module _ (t : ResourceType) (id : Text) (capacity : ℕ) where
  -- A claim that fits beside the holders leaves them and itself room.
  compatible-room :
      (capacities : List (ResourceType × ℕ)) (c : ResourceClaim) (rows : List LeaseRow)
      → capacity_of c.resource_type capacities ≡ some capacity
      → (claim_compatible capacities c rows).0 ≡ true
      → (rows ≡ []) ⊎ (used_units rows + c.units ≤ capacity)
  compatible-room capacities c [] known fits = inl refl
  compatible-room capacities c (r ∷ rs) known fits =
      elim ((claim_compatible-shared_iff capacities c r rs).0 fits).2 [
        | inl (limit, found, within) ↦
            (let same : limit ≡ capacity = some_injective (sym found ∙ known) in
              inr (omega (arith, same, within)))
        | inr (unlimited, _, _, _) ↦ (let never = sym known ∙ unlimited in cc)
      ]

  -- The rows that are queried for a claim on the resource are its holders.
  holders-same :
      (c : ResourceClaim) (leases : List LeaseRow)
      → type_value c.resource_type ≡ type_value t
      → c.resource_id ≡ id
      → select
          (λ r. same_resource c.resource_type c.resource_id r && is_active_status r.status)
          leases
        ≡ holders t id leases
  holders-same c leases types names =
      ap
        (λ (k : Text × Text).
          select
            (λ (r : LeaseRow).
              text_eq (type_value r.resource_type) k.0
              && text_eq r.resource_id k.1
              && is_active_status r.status)
            leases)
        (rw (types, names) refl)

  holders-snoc :
      (rows : List LeaseRow) (r : LeaseRow)
      → holders t id (rows ++ r ∷ [])
        ≡ holders t id rows
          ++ (if same_resource t id r && is_active_status r.status then r ∷ [] else [])
  holders-snoc rows r = select-append _ rows (r ∷ [])

  -- A new lease for which there is room.
  Fits-snoc :
      (c : ResourceClaim) (rows : List LeaseRow) (r : LeaseRow)
      → r.resource_type ≡ c.resource_type
      → r.resource_id ≡ c.resource_id
      → r.units ≡ c.units
      → Room t id capacity c rows
      → Fits t id capacity rows
      → Fits t id capacity (rows ++ r ∷ [])
  unfolding used_units
  Fits-snoc c rows r types names units room fits =
      elim (Bool-cases (same_resource t id r && is_active_status r.status)) [
        | inr other ↦
            (let same : holders t id (rows ++ r ∷ []) ≡ holders t id rows =
                holders-snoc rows r ∙ (rw other (append-nil (holders t id rows))) in
              subst (λ hs. (length hs ≤ 1) ⊎ (used_units hs ≤ capacity)) (sym same) fits)
        | inl ours ↦
            (let more : holders t id (rows ++ r ∷ []) ≡ holders t id rows ++ r ∷ [] =
                holders-snoc rows r ∙ rw ours refl in
              let one_type : same_type c.resource_type t ≡ true =
                ap (λ u. same_type u t) (sym types) ∙ ground (arith, ours) in
              let one_id : text_eq c.resource_id id ≡ true =
                ap (λ i. text_eq i id) (sym names) ∙ ground (arith, ours) in
              subst (λ hs. (length hs ≤ 1) ⊎ (used_units hs ≤ capacity)) (sym more)
                (elim (room one_type one_id) [
                  | inl free ↦
                      inl (subst (λ hs. length (hs ++ r ∷ []) ≤ 1) (sym free) (omega arith))
                  | inr within ↦
                      inr (
                        omega
                          (arith, within, units, used_units-append (holders t id rows) (r ∷ [])))
                ]))
      ]

  -- A new lease on another resource takes no room.
  Room-snoc :
      (c d : ResourceClaim) (rows : List LeaseRow) (r : LeaseRow)
      → r.resource_type ≡ c.resource_type
      → r.resource_id ≡ c.resource_id
      → Apart c d
      → Room t id capacity d rows
      → Room t id capacity d (rows ++ r ∷ [])
  Room-snoc c d rows r types names apart room one_type one_id =
      let to_type = (text_eq_iff (type_value d.resource_type) (type_value t)).0 one_type in
      let to_id = (text_eq_iff d.resource_id id).0 one_id in
      let off : same_resource t id r ≡ false = rw (types, names, sym to_type, sym to_id) apart in
      let foreign : (same_resource t id r && is_active_status r.status) ≡ false =
        ground (arith, off) in
      let same : holders t id (rows ++ r ∷ []) ≡ holders t id rows =
        holders-snoc rows r ∙ (rw foreign (append-nil (holders t id rows))) in
      subst (λ hs. (hs ≡ []) ⊎ (used_units hs + d.units ≤ capacity)) (sym same)
        (room one_type one_id)

  module _ (sha256 nfc casefold : Text → Text) (broker : HostExecutionBroker)
      (limited : capacity_of t broker.capacities ≡ some capacity)
      (resource : is_write_surface t ≡ false) where
    -- A claim that passes the test of the first loop has room.
    claim_compatible-Room :
        (c : ResourceClaim) (leases rows : List LeaseRow)
        → active_leases nfc casefold c leases ≡ ok rows
        → (claim_compatible broker.capacities c rows).0 ≡ true
        → Room t id capacity c leases
    unfolding active_leases
    claim_compatible-Room c leases rows queried fits one_type one_id =
        let types = (text_eq_iff (type_value c.resource_type) (type_value t)).0 one_type in
        let names = (text_eq_iff c.resource_id id).0 one_id in
        let off : is_write_surface c.resource_type ≡ false =
          is_write_surface-same c.resource_type t types ∙ resource in
        let chosen = ok_injective (rw off at queried) in
        subst (λ hs. (hs ≡ []) ⊎ (used_units hs + c.units ≤ capacity))
          (sym chosen ∙ holders-same c leases types names)
          (compatible-room broker.capacities c rows
            (capacity_of-same c.resource_type t broker.capacities types ∙ limited) fits)

    -- The rows of a second loop over different claims that all have room.
    grant_claims-Fits :
        (clock : ℕ → ℕ) (token : ℕ → Text) (n now : ℕ) (execution : Text)
        (claims : List ResourceClaim) (rows : List LeaseRow) (r : List LeaseBinding × List LeaseRow)
        → grant_claims sha256 nfc casefold clock token broker n now execution claims rows ≡ ok r
        → Distinct claims
        → All (λ c. Room t id capacity c rows) claims
        → Fits t id capacity rows
        → Fits t id capacity r.1
    unfolding grant_claims new_lease
    grant_claims-Fits clock token n now execution [] rows r h d rooms e =
        subst (λ x. Fits t id capacity x.1) (ok_injective h) e
    grant_claims-Fits clock token n now execution (claim ∷ claims) rows r h (apart, d)
          (room, others) e =
        let row = new_lease sha256 nfc casefold clock token broker n now execution claim rows in
        let (_, h) = raise_if-ok _ integrity_error _ h in
        let (granted, done, h) =
          >>=-eq-ok
            (grant_claims sha256 nfc casefold clock token broker (suc n) now execution claims
              (rows ++ row ∷ []))
            _ h in
        subst (λ x. Fits t id capacity x.1) (ok_injective h)
          (grant_claims-Fits clock token (suc n) now execution claims (rows ++ row ∷ []) granted
            done d
            (All-weaken (λ c (off, clear). Room-snoc claim c rows row refl refl off clear) claims
              (All-both (Apart claim) (λ c. Room t id capacity c rows) claims apart others))
            (Fits-snoc claim rows row refl refl refl room e))

    -- After any calls of the broker on empty tables, a resource of a type with a capacity, other than
    -- a write surface, has one active lease at most, or the units of its active leases are together
    -- within the capacity.
    pub run-Fits :
        (ops : List Op)
        → Fits t id capacity (run sha256 nfc casefold broker ops empty_database).resource_leases
    unfolding empty_database
    run-Fits ops =
        run-keeps sha256 nfc casefold broker (Fits t id capacity) (Fits-map t id capacity)
          (λ clock token now execution task claims con con' r passed distinct done e.
            grant_claims-Fits clock token 0 now execution claims _ r done distinct
              (check_claims-found sha256 nfc casefold broker (Room t id capacity)
                (Room-map t id capacity) claim_compatible-Room clock token task claims con con'
                passed)
              e)
          ops empty_database (inl (omega arith))
