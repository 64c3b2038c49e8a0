-- ===== src/Kernel/Protocols.antt =====
-- tools/durable_mission_kernel/protocols.py: independence of the roles, and who may merge.
mod Laws
mod Tests
use second_brain_coordinatio.Prelude.{
  Text, text_eq, mem_text, Bool, true, false, not, ◌&&◌, ◌||◌, Option, none, some, List, [], ◌∷◌,
  ◌++◌, Result, ok, err, ◌>>=◌, ◌>>◌, raise_if, length, ◌==◌, if◌then◌else◌,
}

pub data ProtocolError : Type 0 where
  independence_violation self_merge_forbidden self_review_forbidden : ProtocolError
  capability_unavailable : ProtocolError

pub record PrincipalSet : Type 0 where
  pub author : Text
  pub reviewer : Option Text
  pub canonicalizer : Option Text

abbrev pub present : Option Text → List Text
present none = []
present (some t) = t ∷ []

-- The list `identities`.
unfoldable pub identities : PrincipalSet → List Text
identities p = p.author ∷ (present p.reviewer ++ present p.canonicalizer)

-- `set(ts)`, as a list without repetitions
unfoldable pub set_of : List Text → List Text
set_of [] = []
set_of (t ∷ ts) = let rest = set_of ts in if mem_text t rest then rest else t ∷ rest

unfoldable pub assert_principal_independence : PrincipalSet → Result ProtocolError Bool
unfolding identities set_of
assert_principal_independence p = do
  raise_if (not (length (set_of (identities p)) == length (identities p))) independence_violation
  ok true

unfoldable pub assert_no_self_merge : Text → Text → Result ProtocolError Bool
assert_no_self_merge author canonicalizer = do
  raise_if (text_eq author canonicalizer) self_merge_forbidden
  ok true

unfoldable pub assert_no_self_review : Text → Text → Result ProtocolError Bool
assert_no_self_review author reviewer = do
  raise_if (text_eq author reviewer) self_review_forbidden
  ok true

pub record CanonicalizerCapability : Type 0 where
  pub principal : Text
  pub can_merge : Bool
  pub can_write : Bool
  pub merge_permission_verified : Bool
  pub evidence : Text

unfoldable pub canonicalizer_ready : CanonicalizerCapability → Result ProtocolError Bool
canonicalizer_ready cap = do
  raise_if (not cap.can_merge || not cap.merge_permission_verified) capability_unavailable
  ok true

-- `_cap_ok`
unfoldable pub cap_ok : CanonicalizerCapability → Bool
cap_ok cap = cap.can_merge && cap.merge_permission_verified

-- `x is not None and _cap_ok(x)`
abbrev pub capable : Option CanonicalizerCapability → Option CanonicalizerCapability
capable none = none
capable (some cap) = if cap_ok cap then some cap else none

unfoldable pub reroute_or_fail_closed :
    Text
    → Option CanonicalizerCapability
    → Option CanonicalizerCapability
    → Result ProtocolError Text
unfolding cap_ok assert_no_self_merge
reroute_or_fail_closed author canonicalizer fallback = elim (capable canonicalizer) [
  | some cap ↦ (do checked ← assert_no_self_merge author cap.principal; ok cap.principal)
  | none ↦ elim (capable fallback) [
    | some cap ↦ (do checked ← assert_no_self_merge author cap.principal; ok cap.principal)
    | none ↦ err capability_unavailable
  ]
]
