-- ===== src/Broker/Process/Tests.antt =====
-- An execution that reported progress, and an episode that is out of turns.
use second_brain_coordinatio.Prelude.{
  ℕ, ◌≤◌, Text, codes, true, false, none, some, [], ◌≡◌, ◌≢◌, ◌↔◌, ok,
}
use second_brain_coordinatio.Prelude.Int.{pos}
use second_brain_coordinatio.Broker.Models.{ProgressState}
use second_brain_coordinatio.Broker.Process.{
  ProgressObservation, classify, checkpoint_and_successor, episode_budget,
}
use second_brain_coordinatio.Broker.Process.Laws.{
  Fresh, classify-running_iff, episode_budget-rolls_iff,
}

abbrev working : ProgressObservation
working = record {
  now_ms = 100;
  process_alive = true;
  process_started = true;
  process_started_at_ms = some 10;
  heartbeat_at_ms = none;
  model_response_at_ms = none;
  meaningful_progress_at_ms = some 90;
  expected_idle = false;
  terminal = false;
}

classify-running_iff_example : (classify 10 working ≡ ok ProgressState.running) ↔ (
    (1 ≤ 10) × (false ≡ false) × (true ≡ true) × (true ≡ true) × (false ≡ false) × Fresh 10 working)
classify-running_iff_example = classify-running_iff 10 working

episode_budget-rolls_iff_example :
    (episode_budget (pos 8) (pos 8) false (some (codes "cp"))
      ≡ ok (record {
        outcome = checkpoint_and_successor;
        checkpoint_required = true;
        successor_episode_required = true;
        checkpoint_ref = some (codes "cp");
      }))
    ↔ ((false ≡ false)
        × ((used max : ℕ) × (pos 8 ≡ pos used) × (pos 8 ≡ pos max) × (1 ≤ max) × (max ≤ used))
        × ((t : Text) × (some (codes "cp") ≡ some t) × (t ≢ [])))
episode_budget-rolls_iff_example =
    episode_budget-rolls_iff (pos 8) (pos 8) false (some (codes "cp"))
