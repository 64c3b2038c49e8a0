-- ===== src/Kernel/Ledger/Tests.antt =====
-- A mission with one event, and with a hash that is the text itself.
use second_brain_coordinatio.Prelude.{
  ℕ, suc, Text, codes, Bool, true, false, Option, none, some, List, [], ◌∷◌, ◌++◌, ◌≡◌, refl, ok,
  is_ok, ◌⊎◌, lookup,
}
use second_brain_coordinatio.Kernel.Schemas
use second_brain_coordinatio.Kernel.Schemas.{active, event_of_text}
use second_brain_coordinatio.Kernel.Reducers.{reduce_state}
use second_brain_coordinatio.Kernel.Canonical.Json.{obj, end}
use second_brain_coordinatio.Kernel.Ledger.{append_event, verify_chain, replay_state}
use second_brain_coordinatio.Kernel.Tables.{Mission, empty}
use second_brain_coordinatio.Kernel.Ledger.Chain.{Collision}
use second_brain_coordinatio.Kernel.Ledger.Invariant.{Op, create, append, run}
use second_brain_coordinatio.Kernel.Ledger.Replay.{
  verify_chain-run, replay_state-run, append_event-run,
}

abbrev same_text : Text → Text
same_text t = t

abbrev planned : List Op
planned =
    create (codes "M") (codes "r") (codes "t0") (codes "ada")
    ∷ append (codes "M") (codes "PLAN_STARTED") (codes "ada") (codes "t1") (obj end) (obj end)
    ∷ append (codes "M") (codes "REVIEW_STARTED") (codes "ada") (codes "t2") (obj end) (obj end)
    ∷ []

abbrev planning_row : Mission
planning_row = record {
  run_id = codes "r";
  state = active Schemas.MissionState.planning;
  state_seq = 1;
  created_at = codes "t0";
  updated_at = codes "t1";
}

-- The third call is refused, so the mission is still planning.
in_table : lookup (codes "M") (run same_text planned empty).missions ≡ some planning_row
unfolding lookup run append_event second_brain_coordinatio.Kernel.Ledger.create_mission
    second_brain_coordinatio.Prelude.insert reduce_state event_of_text
    second_brain_coordinatio.Kernel.Verifier.build_genesis_event
in_table = refl

verify_chain-run_example :
    (verify_chain same_text (codes "M") (run same_text planned empty) ≡ ok true)
    ⊎ Collision same_text
verify_chain-run_example =
    verify_chain-run same_text planned (codes "M") {row = planning_row} in_table

replay_state-run_example :
    ((t : Option Text) × (replay_state same_text (codes "M") (run same_text planned empty)
        ≡ ok (record {
          state = active Schemas.MissionState.planning;
          state_seq = 1;
          event_count = 2;
          last_event_type = t;
        })))
    ⊎ Collision same_text
replay_state-run_example =
    replay_state-run same_text planned (codes "M") {row = planning_row} in_table

append_event-run_example :
    is_ok (
      append_event same_text
        (codes "M")
        (codes "PLAN_COMPLETED")
        (codes "ada")
        (codes "t3")
        (obj end)
        (obj end)
        (run same_text planned empty))
    ≡ is_ok (
        reduce_state
          (active Schemas.MissionState.planning)
          (event_of_text (codes "PLAN_COMPLETED")))
append_event-run_example =
    append_event-run same_text planned (codes "M") (codes "PLAN_COMPLETED") (codes "ada")
      (codes "t3") (obj end) (obj end) {row = planning_row} in_table
