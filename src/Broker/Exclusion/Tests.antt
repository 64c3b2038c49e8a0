-- ===== src/Broker/Exclusion/Tests.antt =====
-- Two tasks that want the daemon, one after the other, and three that want a processor of two.
use second_brain_coordinatio.Prelude.{Text, codes, true, List, [], ◌∷◌, ◌≡◌, refl, length}
use second_brain_coordinatio.Broker.Models.{ResourceType, ExecutionRequest}
use second_brain_coordinatio.Broker.Rules.{capacity_of, claim_compatible, default_capacity}
use second_brain_coordinatio.Broker.Store.{empty_database}
use second_brain_coordinatio.Broker.Exclusion.{IsExclusive}
use second_brain_coordinatio.Broker.Exclusion.Calls.{Op, admit_request, run}
use second_brain_coordinatio.Broker.Exclusion.Capacity.{Fits, holders}
use second_brain_coordinatio.Broker.Exclusion.Runs.{run-IsExclusive}
use second_brain_coordinatio.Broker.Exclusion.Room.{run-Fits}
use second_brain_coordinatio.Broker.Samples.{
  same_text, backwards, draws, ticking, sample_broker, daemon_request, cpu_claim,
}

abbrev two_tasks : List Op
two_tasks =
    admit_request ticking draws (daemon_request (codes "T1"))
    ∷ admit_request ticking draws (daemon_request (codes "T2"))
    ∷ []

run-IsExclusive_example :
    IsExclusive
      (run backwards same_text same_text sample_broker two_tasks empty_database).resource_leases
run-IsExclusive_example = run-IsExclusive backwards same_text same_text sample_broker two_tasks

abbrev cpu_request : Text → ExecutionRequest
cpu_request task = record (daemon_request task) { resource_claims = cpu_claim ∷ [] }

abbrev three_tasks : List Op
three_tasks =
    admit_request ticking draws (cpu_request (codes "T1"))
    ∷ admit_request ticking draws (cpu_request (codes "T2"))
    ∷ admit_request ticking draws (cpu_request (codes "T3"))
    ∷ []

run-Fits_example :
    Fits ResourceType.cpu_heavy
      (codes "cpu")
      2
      (run backwards same_text same_text sample_broker three_tasks empty_database).resource_leases
unfolding capacity_of
run-Fits_example =
    run-Fits ResourceType.cpu_heavy (codes "cpu") 2 backwards same_text same_text sample_broker refl
      refl three_tasks

two_hold :
    length (
      holders ResourceType.cpu_heavy
        (codes "cpu")
        (run backwards same_text same_text sample_broker three_tasks
          empty_database).resource_leases)
    ≡ 2
unfolding run empty_database second_brain_coordinatio.Broker.Admission.admit
    second_brain_coordinatio.Broker.Dumps.join second_brain_coordinatio.Broker.Dumps.dump_pairs
    second_brain_coordinatio.Kernel.Canonical.Json.sort_items
    second_brain_coordinatio.Kernel.Canonical.Json.jcs_number
    second_brain_coordinatio.Kernel.Canonical.Json.emit
two_hold = refl

-- A claim above the capacity fits where no lease is active.
oversized_fits : (claim_compatible default_capacity (record cpu_claim { units = 5 }) []).0 ≡ true
unfolding claim_compatible
oversized_fits = refl
