-- ===== src/Broker/Process/Laws.antt =====
-- When an execution counts as running, and when an episode rolls over to a successor.
use second_brain_coordinatio.Prelude.{
  ℕ, ◌+◌, ◌≤◌, Text, Bool, true, false, Option, none, some, ◌≡◌, ◌≢◌, ◌↔◌, refl, ok, arith,
  Option-cases, [], ◌∷◌,
}
use second_brain_coordinatio.Prelude.Int.{ℤ, pos, negsuc}
use second_brain_coordinatio.Broker.Models.{ProgressState}
use second_brain_coordinatio.Broker.Process.{
  ProgressObservation, classify, classify_progress, checkpoint_and_successor, episode_budget,
}

-- Progress was reported at most `stall_after` milliseconds ago.
abbrev pub Fresh : ℕ → ProgressObservation → Type 0
Fresh stall_after o =
    (at : ℕ) × (o.meaningful_progress_at_ms ≡ some at) × (o.now_ms ≤ at + stall_after)

-- An execution is classified as running exactly when the limit is positive, the process has started
-- and lives, it is neither terminal nor expected to idle, and it has made progress within the limit.
pub classify-running_iff :
    (stall_after : ℕ) (o : ProgressObservation)
    → (classify stall_after o ≡ ok ProgressState.running) ↔ (
        (1 ≤ stall_after)
        × (o.terminal ≡ false)
        × (o.process_started ≡ true)
        × (o.process_alive ≡ true)
        × (o.expected_idle ≡ false)
        × Fresh stall_after o)
unfolding classify classify_progress
classify-running_iff stall_after o = (
  λ h.
      ground
        (arith, Option-cases o.meaningful_progress_at_ms, Option-cases o.process_started_at_ms),
  λ h. ground arith,
)

-- An episode rolls over to a successor, with a checkpoint, exactly when its numbers are valid, the
-- mission is not complete, the turns are used up, and there is a checkpoint that is not empty.
pub episode_budget-rolls_iff :
    (turns_used max_turns : ℤ) (complete : Bool) (checkpoint_ref : Option Text)
    → (episode_budget turns_used max_turns complete checkpoint_ref
        ≡ ok (record {
          outcome = checkpoint_and_successor;
          checkpoint_required = true;
          successor_episode_required = true;
          checkpoint_ref = checkpoint_ref;
        }))
      ↔ ((complete ≡ false)
          × ((used max : ℕ) × (turns_used ≡ pos used)
              × (max_turns ≡ pos max)
              × (1 ≤ max)
              × (max ≤ used))
          × ((t : Text) × (checkpoint_ref ≡ some t) × (t ≢ [])))
unfolding episode_budget
episode_budget-rolls_iff (negsuc u) m c r = ground arith
episode_budget-rolls_iff (pos u) (negsuc m) c r = ground arith
episode_budget-rolls_iff (pos u) (pos m) true r = ground arith
episode_budget-rolls_iff (pos u) (pos m) false none = ground arith
episode_budget-rolls_iff (pos u) (pos m) false (some []) = ground arith
episode_budget-rolls_iff (pos u) (pos m) false (some (c ∷ s)) = (
  λ h. (refl, (u, m, refl, refl, ground arith, ground arith), (c ∷ s, refl, ground arith)),
  λ h. ground arith,
)
