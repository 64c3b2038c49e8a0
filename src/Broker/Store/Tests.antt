-- ===== src/Broker/Store/Tests.antt =====
-- An execution with one lease that ran out and one that did not.
use second_brain_coordinatio.Prelude.{codes, [], ◌∷◌, ◌≡◌, refl, All, map}
use second_brain_coordinatio.Broker.Store.{RowStatus, LeaseRow, Connection, expire_stale_leases}
use second_brain_coordinatio.Broker.Store.Expiry.{
  run_out, IsLive, IsKept, expire_stale_leases-atomic,
}
use second_brain_coordinatio.Broker.Samples.{ticking, cpu_lease, with_leases}

abbrev half_expired : Connection
half_expired = with_leases (cpu_lease (codes "L1") 50 ∷ cpu_lease (codes "L2") 500 ∷ [])

both_fenced :
    map LeaseRow.status (expire_stale_leases ticking half_expired).db.resource_leases
    ≡ RowStatus.fenced ∷ RowStatus.fenced ∷ []
unfolding expire_stale_leases
both_fenced = refl

expire_stale_leases-atomic_example :
    All
      (IsLive 100 (run_out ticking half_expired))
      (expire_stale_leases ticking half_expired).db.resource_leases
    × All
        (IsKept (run_out ticking half_expired))
        (expire_stale_leases ticking half_expired).db.executions
expire_stale_leases-atomic_example = expire_stale_leases-atomic ticking half_expired
