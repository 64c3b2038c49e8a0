-- ===== src/Broker/Request/Distinct.antt =====
-- The keys of the claims of a request, through merging and sorting.
use second_brain_coordinatio.Prelude.{
  Text, text_eq, text_eq_iff, Bool, true, false, ◌&&◌, List, [], ◌∷◌, ◌++◌, ◌≡◌, arith, ok,
  >>=-eq-ok, All, All-weaken, Bool-cases, inl, inr, ok_injective,
}
use mathlib.Core.Path.{subst}
use second_brain_coordinatio.Broker.Models.{
  type_value, same_type, ResourceClaim, ExecutionRequest, merge_claim,
}
use second_brain_coordinatio.Broker.Request.{
  claim_le, insert_claim, sort_claims, normalize_claim, merge_claims, implicit_claims, all_claims,
}

abbrev pub same_key : ResourceClaim → ResourceClaim → Bool
same_key c d = same_type c.resource_type d.resource_type && text_eq c.resource_id d.resource_id

abbrev pub Apart : ResourceClaim → ResourceClaim → Type 0
Apart c d = same_key c d ≡ false

abbrev pub Distinct : List ResourceClaim → Type 0
Distinct [] = Unit
Distinct (c ∷ cs) = All (Apart c) cs × Distinct cs

-- Claims with one key are apart from the same claims.
Apart-same_key : (p c d : ResourceClaim) → same_key p c ≡ true → Apart p d → Apart c d
Apart-same_key p c d same apart = ground (
  arith,
  text_eq_iff (type_value p.resource_type) (type_value c.resource_type),
  text_eq_iff (type_value p.resource_type) (type_value d.resource_type),
  text_eq_iff (type_value c.resource_type) (type_value d.resource_type),
  text_eq_iff p.resource_id c.resource_id,
  text_eq_iff p.resource_id d.resource_id,
  text_eq_iff c.resource_id d.resource_id,
)

Apart-sym : (c d : ResourceClaim) → Apart c d → Apart d c
Apart-sym c d apart = ground (
  arith,
  text_eq_iff (type_value c.resource_type) (type_value d.resource_type),
  text_eq_iff (type_value d.resource_type) (type_value c.resource_type),
  text_eq_iff c.resource_id d.resource_id,
  text_eq_iff d.resource_id c.resource_id,
)

merge_claim-All :
    (q c : ResourceClaim) (ps : List ResourceClaim)
    → All (Apart q) ps
    → Apart q c
    → All (Apart q) (merge_claim c ps)
unfolding merge_claim
merge_claim-All q c [] h apart = (apart, tt)
merge_claim-All q c (p ∷ ps) (h, hs) apart = elim (Bool-cases (same_key p c)) [
  | inl same ↦ rw (merge_claim, same) (apart, hs)
  | inr off ↦ rw (merge_claim, off) (h, merge_claim-All q c ps hs apart)
]

merge_claim-Distinct :
    (c : ResourceClaim) (ps : List ResourceClaim) → Distinct ps → Distinct (merge_claim c ps)
unfolding merge_claim
merge_claim-Distinct c [] h = (tt, tt)
merge_claim-Distinct c (p ∷ ps) (h, hs) = elim (Bool-cases (same_key p c)) [
  | inl same ↦ rw (merge_claim, same) (All-weaken (λ d. Apart-same_key p c d same) ps h, hs)
  | inr off ↦ rw (merge_claim, off) (merge_claim-All p c ps h off, merge_claim-Distinct c ps hs)
]

insert_claim-All :
    (q c : ResourceClaim) (ds : List ResourceClaim)
    → All (Apart q) ds
    → Apart q c
    → All (Apart q) (insert_claim c ds)
unfolding insert_claim
insert_claim-All q c [] h apart = (apart, tt)
insert_claim-All q c (d ∷ ds) (h, hs) apart = elim (Bool-cases (claim_le c d)) [
  | inl first ↦ rw first (apart, (h, hs))
  | inr later ↦ rw later (h, insert_claim-All q c ds hs apart)
]

insert_claim-Distinct :
    (c : ResourceClaim) (ds : List ResourceClaim)
    → All (Apart c) ds
    → Distinct ds
    → Distinct (insert_claim c ds)
unfolding insert_claim
insert_claim-Distinct c [] a h = (tt, tt)
insert_claim-Distinct c (d ∷ ds) (a, rest) (h, hs) = elim (Bool-cases (claim_le c d)) [
  | inl first ↦ rw first ((a, rest), (h, hs))
  | inr later ↦
      rw later (insert_claim-All d c ds h (Apart-sym c d a), insert_claim-Distinct c ds rest hs)
]

sort_claims-All :
    (q : ResourceClaim) (cs : List ResourceClaim)
    → All (Apart q) cs
    → All (Apart q) (sort_claims cs)
unfolding sort_claims
sort_claims-All q [] h = tt
sort_claims-All q (c ∷ cs) (h, hs) =
    insert_claim-All q c (sort_claims cs) (sort_claims-All q cs hs) h

sort_claims-Distinct : (cs : List ResourceClaim) → Distinct cs → Distinct (sort_claims cs)
unfolding sort_claims
sort_claims-Distinct [] h = tt
sort_claims-Distinct (c ∷ cs) (h, hs) =
    insert_claim-Distinct c (sort_claims cs) (sort_claims-All c cs h) (sort_claims-Distinct cs hs)

module _ (nfc casefold : Text → Text) where
  merge_claims-Distinct :
      (cs ps : List ResourceClaim) {claims : List ResourceClaim}
      → merge_claims nfc casefold cs ps ≡ ok claims
      → Distinct ps
      → Distinct claims
  unfolding merge_claims
  merge_claims-Distinct [] ps h d = subst Distinct (ok_injective h) d
  merge_claims-Distinct (c ∷ cs) ps h d =
      let (n, normal, h) = >>=-eq-ok (normalize_claim nfc casefold c) _ h in
      merge_claims-Distinct cs (merge_claim n ps) h (merge_claim-Distinct n ps d)

  -- No two claims of a request have one type and one resource id.
  pub all_claims-Distinct :
      (request : ExecutionRequest) (claims : List ResourceClaim)
      → all_claims nfc casefold request ≡ ok claims
      → Distinct claims
  unfolding all_claims
  all_claims-Distinct request claims h =
      let (implicit, made, h) = >>=-eq-ok (implicit_claims nfc casefold request) _ h in
      let (by_key, merged, h) =
        >>=-eq-ok (merge_claims nfc casefold (implicit ++ request.resource_claims) []) _ h in
      subst Distinct (ok_injective h) (
        sort_claims-Distinct by_key
          (merge_claims-Distinct (implicit ++ request.resource_claims) [] merged tt))
