-- ===== src/Kernel/Protocols/Tests.antt =====
-- Principals of a mission, and the way around an author who would merge.
use second_brain_coordinatio.Prelude.{
  Text, codes, Bool, true, false, some, ◌≡◌, ◌≢◌, ◌↔◌, refl, ok, is_ok, ◌⊎◌,
}
use second_brain_coordinatio.Kernel.Protocols.{
  PrincipalSet, assert_principal_independence, CanonicalizerCapability, cap_ok,
  reroute_or_fail_closed,
}
use second_brain_coordinatio.Kernel.Protocols.Laws.{
  Differ, assert_principal_independence_iff, reroute_or_fail_closed-independent,
}

abbrev three : PrincipalSet
three = record {
  author = codes "ada";
  reviewer = some (codes "bob");
  canonicalizer = some (codes "cy");
}

assert_principal_independence_iff_example : (is_ok (assert_principal_independence three) ≡ true) ↔ (
    Differ (some (codes "ada")) (some (codes "bob"))
    × Differ (some (codes "ada")) (some (codes "cy"))
    × Differ (some (codes "bob")) (some (codes "cy")))
assert_principal_independence_iff_example = assert_principal_independence_iff three

abbrev capability : Text → Bool → CanonicalizerCapability
capability p verified = record {
  principal = p;
  can_merge = true;
  can_write = true;
  merge_permission_verified = verified;
  evidence = codes "run 7";
}

rerouted :
    reroute_or_fail_closed
      (codes "ada")
      (some (capability (codes "ada") false))
      (some (capability (codes "bob") true))
    ≡ ok (codes "bob")
unfolding reroute_or_fail_closed
rerouted = refl

reroute_or_fail_closed-independent_example :
    (codes "bob" ≢ codes "ada")
    × (cap : CanonicalizerCapability) × ((some (capability (codes "ada") false) ≡ some cap)
        ⊎ (some (capability (codes "bob") true) ≡ some cap))
    × (cap_ok cap ≡ true)
    × (codes "bob" ≡ cap.principal)
reroute_or_fail_closed-independent_example =
    reroute_or_fail_closed-independent (codes "ada") (codes "bob")
      (some (capability (codes "ada") false)) (some (capability (codes "bob") true)) rerouted
