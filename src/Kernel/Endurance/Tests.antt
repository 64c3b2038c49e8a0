-- ===== src/Kernel/Endurance/Tests.antt =====
-- The canary with two episodes and a failure, and with a hash that is the text itself.
use second_brain_coordinatio.Prelude.{arith, Text, codes, true, false, ◌≡◌, ◌⊎◌, ok, err}
use second_brain_coordinatio.Kernel.Schemas.{active, MissionState, EventType, listed}
use second_brain_coordinatio.Kernel.Reducers.{illegal_transition}
use second_brain_coordinatio.Kernel.Tables.{LedgerError, empty}
use second_brain_coordinatio.Kernel.Ledger.Chain.{Collision}
use second_brain_coordinatio.Kernel.Endurance.{CanaryReport, run}
use second_brain_coordinatio.Kernel.Endurance.Passes.{Reports, run-Reports, run-refuses}

abbrev same_text : Text → Text
same_text t = t

run-Reports_example :
    ((r : CanaryReport) × (run same_text (codes "CANARY-001") 2 true empty ≡ ok r)
      × Reports 2 true r)
    ⊎ Collision same_text
run-Reports_example = run-Reports same_text (codes "CANARY-001") 2 true (omega arith)

run-refuses_example :
    run same_text (codes "CANARY-001") 0 false empty
    ≡ err (
        LedgerError.illegal
          (illegal_transition (active MissionState.ready) (listed EventType.verification_started)))
run-refuses_example = run-refuses same_text (codes "CANARY-001") false
