-- ===== src/Kernel/Protocols/Laws.antt =====
-- Who may hold which role, and who may merge.
use second_brain_coordinatio.Prelude.{
  Text, text_eq_iff, true, Option, none, some, ◌≡◌, ◌≢◌, ◌↔◌, refl, ok, ◌>>=◌, is_ok, arith, ◌⊎◌,
  inl, inr, Bool-cases,
}
use second_brain_coordinatio.Kernel.Protocols.{
  PrincipalSet, assert_principal_independence, CanonicalizerCapability, cap_ok, capable,
  reroute_or_fail_closed, assert_no_self_merge,
}

-- The two texts differ if both are there.
abbrev pub Differ : Option Text → Option Text → Type 0
Differ (some s) (some t) = s ≢ t
Differ none o = Unit
Differ (some s) none = Unit

-- The check passes exactly when the roles that are held are held by different principals.
pub assert_principal_independence_iff :
    (p : PrincipalSet)
    → (is_ok (assert_principal_independence p) ≡ true) ↔ (
        Differ (some p.author) p.reviewer
        × Differ (some p.author) p.canonicalizer
        × Differ p.reviewer p.canonicalizer)
unfolding assert_principal_independence
assert_principal_independence_iff p = by_roles p.author p.reviewer p.canonicalizer
  where
    by_roles :
        (a : Text) (r c : Option Text)
        → (is_ok (
              assert_principal_independence
                (record { author = a; reviewer = r; canonicalizer = c }))
            ≡ true)
          ↔ (Differ (some a) r × Differ (some a) c × Differ r c)
    by_roles a none none = ground arith
    by_roles a none (some c) = ground (arith, text_eq_iff a c)
    by_roles a (some r) none = ground (arith, text_eq_iff a r)
    by_roles a (some r) (some c) = ground (arith, text_eq_iff a r, text_eq_iff a c, text_eq_iff r c)

capable-cases :
    (o : Option CanonicalizerCapability)
    → (capable o ≡ none)
      ⊎ ((cap : CanonicalizerCapability) × (o ≡ some cap)
          × (cap_ok cap ≡ true)
          × (capable o ≡ some cap))
capable-cases none = inl refl
capable-cases (some cap) = elim (Bool-cases (cap_ok cap)) [
  | inl t ↦ inr (cap, refl, t, rw t refl)
  | inr f ↦ inl (rw f refl)
]

merging :
    (author p : Text) (cap : CanonicalizerCapability)
    → (do checked ← assert_no_self_merge author cap.principal; ok cap.principal) ≡ ok p
    → (p ≢ author) × (p ≡ cap.principal)
unfolding assert_no_self_merge
merging author p cap h = ground (arith, text_eq_iff author cap.principal)

-- A principal that is returned is not the author, and is that of the canonicalizer or the fallback,
-- with evidence that it can merge.
pub reroute_or_fail_closed-independent :
    (author p : Text) (canonicalizer fallback : Option CanonicalizerCapability)
    → reroute_or_fail_closed author canonicalizer fallback ≡ ok p
    → (p ≢ author)
      × (cap : CanonicalizerCapability) × ((canonicalizer ≡ some cap) ⊎ (fallback ≡ some cap))
      × (cap_ok cap ≡ true)
      × (p ≡ cap.principal)
unfolding reroute_or_fail_closed
reroute_or_fail_closed-independent author p c f h = elim (capable-cases c) [
  | inr (k, is, fit, found) ↦
      (let (other, same) = merging author p k (rw (reroute_or_fail_closed, found) at h) in
        (other, k, inl is, fit, same))
  | inl bad ↦ elim (capable-cases f) [
    | inr (k, is, fit, found) ↦
        (let (other, same) = merging author p k (rw (reroute_or_fail_closed, bad, found) at h) in
          (other, k, inr is, fit, same))
    | inl bad' ↦ (let never = rw (reroute_or_fail_closed, bad, bad') at h in cc)
  ]
]
