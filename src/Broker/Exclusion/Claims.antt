-- ===== src/Broker/Exclusion/Claims.antt =====
-- What the two loops of `admit` do to the leases.
use mathlib.Core.Path.{subst}
use second_brain_coordinatio.Prelude.{
  ℕ, suc, Text, text_eq_iff, text_eq_refl, Bool, true, false, ◌&&◌, Option, none, some, List, [],
  ◌∷◌, ◌++◌, ◌≡◌, refl, sym, ap, ◌∙◌, arith, All, All-weaken, All-snoc, All-both, All-intro, ok,
  >>=-eq-ok, raise_if-ok, ok_injective, map, Bool-cases, inl, inr, select-none,
}
use second_brain_coordinatio.Broker.Models.{
  ResourceType, type_value, ResourceClaim, is_write_surface,
}
use second_brain_coordinatio.Broker.Request.Distinct.{Apart, Distinct}
use second_brain_coordinatio.Broker.Store.{
  LeaseRow, is_active_status, Connection, add_event, expire_stale_leases,
}
use second_brain_coordinatio.Broker.Admission.{check_claims, grant_claims, new_lease}
use second_brain_coordinatio.Broker.Rules.{
  HostExecutionBroker, AdmissionDecision, LeaseBinding, always_exclusive, same_resource,
  active_leases, claim_compatible, integrity_error,
}
use second_brain_coordinatio.Broker.Admission.Compatibility.{claim_compatible-shared_iff}
use second_brain_coordinatio.Broker.Exclusion.{
  Rivals, IsExclusive, Free, IsExclusive-snoc, always_exclusive-same_type,
  expire_stale_leases-keeps, Free-map, Calms,
}

not_surface_of_exclusive :
    (t : ResourceType) → always_exclusive t ≡ true → is_write_surface t ≡ false
not_surface_of_exclusive ResourceType.write_surface h = cc
not_surface_of_exclusive _ h = refl

-- An exclusive claim fits only beside no row.
claim_compatible-nil :
    (capacities : List (ResourceType × ℕ)) (c : ResourceClaim) (rows : List LeaseRow)
    → (claim_compatible capacities c rows).0 ≡ true
    → always_exclusive c.resource_type ≡ true
    → rows ≡ []
claim_compatible-nil capacities c [] fits exclusive = refl
claim_compatible-nil capacities c (r ∷ rs) fits exclusive =
    let (_, shared, _) = (claim_compatible-shared_iff capacities c r rs).0 fits in cc

none-some : {A : Type 0} {x : A} → some x ≡ none → ⊥
none-some h = cc

unmatched :
    (c : ResourceClaim) (r : LeaseRow)
    → (same_resource c.resource_type c.resource_id r && is_active_status r.status) ≡ false
    → is_active_status r.status ≡ true
    → same_resource c.resource_type c.resource_id r ≡ false
unmatched c r off live = ground arith

both_true : {a b : Bool} → a && b ≡ true → (a ≡ true) × (b ≡ true)
both_true {a = true} {b = true} h = (refl, refl)
both_true {a = true} {b = false} h = cc
both_true {a = false} h = cc

true-false : true ≡ false → ⊥
true-false h = cc

matches_self :
    (c : ResourceClaim) (s : LeaseRow)
    → type_value c.resource_type ≡ type_value s.resource_type
    → c.resource_id ≡ s.resource_id
    → same_resource c.resource_type c.resource_id s ≡ true
matches_self c s types ids =
    rw (types, ids, text_eq_refl (type_value s.resource_type), text_eq_refl s.resource_id) refl

-- A new row of a claim is no rival of a row that is not against the claim.
Free-Rivals :
    (c : ResourceClaim) (s r : LeaseRow)
    → Free c s
    → r.resource_type ≡ c.resource_type
    → r.resource_id ≡ c.resource_id
    → Rivals s r
Free-Rivals c s r free same_t same_i exclusive live other =
    elim (Bool-cases (same_resource s.resource_type s.resource_id r)) [
      | inr off ↦ off
      | inl same ↦
          (let (types, names) = both_true same in
            let one_type =
              sym (ap type_value same_t) ∙ (text_eq_iff _ (type_value s.resource_type)).0 types in
            let off =
              free (always_exclusive-same_type c.resource_type s.resource_type one_type ∙ exclusive)
                live in
            let one_id = sym same_i ∙ (text_eq_iff r.resource_id s.resource_id).0 names in
            absurd (true-false (sym (matches_self c s one_type one_id) ∙ off)))
    ]

module _ (sha256 nfc casefold : Text → Text) (broker : HostExecutionBroker) where
  claim_compatible-Free :
      (c : ResourceClaim) (leases rows : List LeaseRow)
      → active_leases nfc casefold c leases ≡ ok rows
      → (claim_compatible broker.capacities c rows).0 ≡ true
      → All (Free c) leases
  unfolding active_leases
  claim_compatible-Free c leases rows queried fits =
      elim (Bool-cases (always_exclusive c.resource_type)) [
        | inr shared ↦ All-intro (λ r exclusive live. cc) leases
        | inl exclusive ↦
            (let chosen =
                ok_injective (rw (not_surface_of_exclusive c.resource_type exclusive) at queried) in
              All-weaken (λ r off _ live. unmatched c r off live) leases
                (select-none _ leases
                  (chosen ∙ claim_compatible-nil broker.capacities c rows fits exclusive)))
      ]

  -- What an expiry keeps of the leases, the first loop keeps.
  pub check_claims-keeps :
      (P : List LeaseRow → Type 0) (clock : ℕ → ℕ) (token : ℕ → Text) (task : Text)
      (claims : List ResourceClaim) (con : Connection) (r : Option AdmissionDecision × Connection)
      → check_claims sha256 nfc casefold clock token broker task claims con ≡ ok r
      → ((c : Connection)
          → P c.db.resource_leases
          → P (expire_stale_leases clock c).db.resource_leases)
      → P con.db.resource_leases
      → P r.1.db.resource_leases
  unfolding check_claims add_event
  check_claims-keeps P clock token task [] con r h kept p =
      subst (λ x. P x.1.db.resource_leases) (ok_injective h) p
  check_claims-keeps P clock token task (claim ∷ claims) con r h kept p =
      let expired = expire_stale_leases clock con in
      let (rows, queried, h) =
        >>=-eq-ok (active_leases nfc casefold claim expired.db.resource_leases) _ h in
      elim (Bool-cases (claim_compatible broker.capacities claim rows).0) [
        | inl fits ↦
            check_claims-keeps P clock token task claims expired r (rw fits at h) kept (kept con p)
        | inr unfit ↦
            subst (λ x. P x.1.db.resource_leases) (ok_injective (rw unfit at h)) (kept con p)
      ]

  -- What each claim of the first loop finds of the leases, and calm changes keep, holds at its end.
  pub check_claims-found :
      (Q : ResourceClaim → List LeaseRow → Type 0)
      → ((c : ResourceClaim) (f : LeaseRow → LeaseRow) (rows : List LeaseRow)
          → Calms f
          → Q c rows
          → Q c (map f rows))
      → ((c : ResourceClaim) (leases rows : List LeaseRow)
          → active_leases nfc casefold c leases ≡ ok rows
          → (claim_compatible broker.capacities c rows).0 ≡ true
          → Q c leases)
      → (clock : ℕ → ℕ) (token : ℕ → Text) (task : Text) (claims : List ResourceClaim)
        (con con' : Connection)
      → check_claims sha256 nfc casefold clock token broker task claims con ≡ ok (none, con')
      → All (λ c. Q c con'.db.resource_leases) claims
  unfolding check_claims
  check_claims-found Q kept found clock token task [] con con' h = tt
  check_claims-found Q kept found clock token task (claim ∷ claims) con con' h =
      let expired = expire_stale_leases clock con in
      let (rows, queried, h) =
        >>=-eq-ok (active_leases nfc casefold claim expired.db.resource_leases) _ h in
      elim (Bool-cases (claim_compatible broker.capacities claim rows).0) [
        | inl fits ↦
            (let rest = rw fits at h in
              (
                check_claims-keeps (Q claim) clock token task claims expired (none, con') rest
                    (λ c. expire_stale_leases-keeps (Q claim) clock c (kept claim))
                    (found claim expired.db.resource_leases rows queried fits),
                check_claims-found Q kept found clock token task claims expired con' rest,
              ))
        | inr unfit ↦
            (let never = ok_injective (rw unfit at h) in absurd (none-some (ap (λ x. x.0) never)))
      ]

  -- After the first loop no exclusive claim has an active lease against it.
  pub check_claims-Free :
      (clock : ℕ → ℕ) (token : ℕ → Text) (task : Text) (claims : List ResourceClaim)
      (con con' : Connection)
      → check_claims sha256 nfc casefold clock token broker task claims con ≡ ok (none, con')
      → All (λ c. All (Free c) con'.db.resource_leases) claims
  check_claims-Free =
      check_claims-found (λ c rows. All (Free c) rows) (λ c f rows calm h. Free-map c f rows calm h)
        claim_compatible-Free

  -- The rows of a second loop over different claims that are all free.
  pub grant_claims-IsExclusive :
      (clock : ℕ → ℕ) (token : ℕ → Text) (n now : ℕ) (id : Text) (claims : List ResourceClaim)
      (rows : List LeaseRow) (r : List LeaseBinding × List LeaseRow)
      → grant_claims sha256 nfc casefold clock token broker n now id claims rows ≡ ok r
      → Distinct claims
      → All (λ c. All (Free c) rows) claims
      → IsExclusive rows
      → IsExclusive r.1
  unfolding grant_claims new_lease
  grant_claims-IsExclusive clock token n now id [] rows r h d free e =
      subst (λ x. IsExclusive x.1) (ok_injective h) e
  grant_claims-IsExclusive clock token n now id (claim ∷ claims) rows r h (apart, d) (free, others)
        e =
      let row = new_lease sha256 nfc casefold clock token broker n now id claim rows in
      let (_, h) = raise_if-ok _ integrity_error _ h in
      let (granted, done, h) =
        >>=-eq-ok
          (grant_claims sha256 nfc casefold clock token broker (suc n) now id claims
            (rows ++ row ∷ []))
          _ h in
      subst (λ x. IsExclusive x.1) (ok_injective h)
        (grant_claims-IsExclusive clock token (suc n) now id claims (rows ++ row ∷ []) granted done
          d
          (All-weaken (λ c (off, clear). All-snoc (Free c) rows clear (λ _ _. off)) claims
            (All-both (Apart claim) (λ c. All (Free c) rows) claims apart others))
          (IsExclusive-snoc rows row e
            (All-weaken (λ s clear. Free-Rivals claim s row clear refl refl) rows free)))
