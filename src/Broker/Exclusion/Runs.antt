-- ===== src/Broker/Exclusion/Runs.antt =====
-- The active leases on exclusive resources, after any calls of the broker.
use second_brain_coordinatio.Prelude.{Text, List}
use second_brain_coordinatio.Broker.Store.{empty_database}
use second_brain_coordinatio.Broker.Rules.{HostExecutionBroker}
use second_brain_coordinatio.Broker.Exclusion.{IsExclusive, IsExclusive-map}
use second_brain_coordinatio.Broker.Exclusion.Claims.{check_claims-Free, grant_claims-IsExclusive}
use second_brain_coordinatio.Broker.Exclusion.Calls.{Op, run, run-keeps}

module _ (sha256 nfc casefold : Text → Text) (broker : HostExecutionBroker) where
  -- After any calls of the broker on empty tables, no resource of an exclusive type has two active
  -- leases.
  pub run-IsExclusive :
      (ops : List Op)
      → IsExclusive (run sha256 nfc casefold broker ops empty_database).resource_leases
  unfolding empty_database
  run-IsExclusive ops =
      run-keeps sha256 nfc casefold broker IsExclusive IsExclusive-map
        (λ clock token now id task claims con con' r passed distinct done e.
          grant_claims-IsExclusive sha256 nfc casefold broker clock token 0 now id claims _ r done
            distinct
            (check_claims-Free sha256 nfc casefold broker clock token task claims con con' passed)
            e)
        ops empty_database tt
