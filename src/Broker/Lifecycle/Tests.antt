-- ===== src/Broker/Lifecycle/Tests.antt =====
-- An effect under a current lease, and the same lease after a release.
use second_brain_coordinatio.Prelude.{
  some, ◌+◌, ◌<◌, codes, true, false, [], ◌∷◌, ◌≡◌, refl, ok, err, is_ok, All, Result,
}
use second_brain_coordinatio.Broker.Models.{ResourceType}
use second_brain_coordinatio.Broker.Store.{is_active_status, LeaseRow, Connection}
use second_brain_coordinatio.Broker.Rules.{BrokerError, same_resource}
use second_brain_coordinatio.Broker.Lifecycle.{has_lease_id, assert_effect_authorized, release}
use second_brain_coordinatio.Broker.Lifecycle.Fencing.{
  Matches, assert_effect_authorized-current, release-revokes,
}
use second_brain_coordinatio.Broker.Rules.{find}
use second_brain_coordinatio.Broker.Samples.{ticking, cpu_lease, with_leases, sample_binding}

abbrev leased : Connection
leased = with_leases (cpu_lease (codes "L1") 500 ∷ [])

abbrev read_once : Connection
read_once = record leased { reads = 1 }

authorized : assert_effect_authorized ticking sample_binding leased ≡ ok read_once
unfolding assert_effect_authorized
authorized = refl

assert_effect_authorized-current_example :
    (r : LeaseRow) × (find (has_lease_id sample_binding.lease_id) read_once.db.resource_leases
      ≡ some r)
    × Matches sample_binding r
    × (is_active_status r.status ≡ true)
    × (100 < r.expires_at_ms)
    × All
        (λ s. same_resource ResourceType.cpu_heavy (codes "cpu") s ≡ true → s.generation < 1 + 1)
        read_once.db.resource_leases
assert_effect_authorized-current_example =
    assert_effect_authorized-current ticking sample_binding leased read_once authorized

-- The connection after a call, and the one before it where the call raises.
abbrev after_call : Connection → Result BrokerError Connection → Connection
after_call con (ok con') = con'
after_call con (err e) = con

abbrev closed : Connection
closed = after_call leased (release ticking (codes "EX-1") (codes "COMPLETE") leased)

closes : release ticking (codes "EX-1") (codes "COMPLETE") leased ≡ ok closed
unfolding release
closes = refl

release-revokes_example : is_ok (assert_effect_authorized ticking sample_binding closed) ≡ false
release-revokes_example =
    release-revokes ticking ticking (codes "EX-1") (codes "COMPLETE") sample_binding leased closed
      closes refl
