-- ===== src/Broker/Admission/Tests.antt =====
-- A request that is made twice.
use second_brain_coordinatio.Prelude.{
  ◌<◌, Text, codes, true, false, none, List, [], ◌∷◌, ◌≡◌, ◌↔◌, refl, All, Result, ok, err,
}
use second_brain_coordinatio.Broker.Models.{DecisionOutcome}
use second_brain_coordinatio.Broker.Store.{Connection, empty_database, expire_stale_leases}
use second_brain_coordinatio.Broker.Admission.{admit}
use second_brain_coordinatio.Broker.Rules.{BrokerError, AdmissionDecision}
use second_brain_coordinatio.Broker.Admission.Joining.{admit_joins}
use second_brain_coordinatio.Broker.Samples.{
  same_text, backwards, draws, ticking, sample_broker, sample_request,
}

abbrev nothing : Connection
nothing = record { db = empty_database; reads = 0 }

abbrev refused : AdmissionDecision
refused = record {
  outcome = DecisionOutcome.block_conflict;
  execution_id = none;
  broker_key = none;
  reason = [];
  leases = [];
  joined_execution_id = none;
}

-- The result of a call, and tables without rows where it raises.
abbrev answer : Result BrokerError (AdmissionDecision × Connection) → AdmissionDecision × Connection
answer (ok r) = r
answer (err e) = (refused, record { db = empty_database; reads = 0 })

abbrev first_call : AdmissionDecision × Connection
first_call =
    answer (admit backwards same_text same_text ticking draws sample_broker sample_request nothing)

admits :
    admit backwards same_text same_text ticking draws sample_broker sample_request nothing
    ≡ ok (first_call.0, first_call.1)
unfolding admit empty_database second_brain_coordinatio.Prelude.strip_suffix
    second_brain_coordinatio.Broker.WritePaths.split_segments
    second_brain_coordinatio.Broker.Dumps.join second_brain_coordinatio.Broker.Dumps.dump_pairs
    second_brain_coordinatio.Kernel.Canonical.Json.sort_items
    second_brain_coordinatio.Kernel.Canonical.Json.jcs_number
    second_brain_coordinatio.Kernel.Canonical.Json.emit
admits = refl

admits_outcome : first_call.0.outcome ≡ DecisionOutcome.admit
unfolding admit empty_database second_brain_coordinatio.Prelude.strip_suffix
    second_brain_coordinatio.Broker.WritePaths.split_segments
    second_brain_coordinatio.Broker.Dumps.join second_brain_coordinatio.Broker.Dumps.dump_pairs
    second_brain_coordinatio.Kernel.Canonical.Json.sort_items
    second_brain_coordinatio.Kernel.Canonical.Json.jcs_number
    second_brain_coordinatio.Kernel.Canonical.Json.emit
admits_outcome = refl

admit_joins_example :
    (e : AdmissionDecision) × (admit backwards same_text same_text ticking draws sample_broker
        sample_request first_call.1
      ≡ ok (e, expire_stale_leases ticking first_call.1))
    × (e.outcome ≡ DecisionOutcome.join_existing)
    × (e.joined_execution_id ≡ first_call.0.execution_id)
admit_joins_example =
    admit_joins backwards same_text same_text sample_broker ticking ticking draws draws
      sample_request nothing first_call.1 first_call.0 admits admits_outcome
