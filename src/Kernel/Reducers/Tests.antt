-- ===== src/Kernel/Reducers/Tests.antt =====
-- A mission from start to end, and a pause.
use second_brain_coordinatio.Prelude.{◌≡◌, refl, map, List, [], ◌∷◌, ok, Subseq, All}
use second_brain_coordinatio.Kernel.Schemas.{
  MissionState, WaitState, active, waiting, EventType, Event, listed,
}
use second_brain_coordinatio.Kernel.Reducers.{reduce_all, reduce_state, initial_state}
use second_brain_coordinatio.Kernel.Reducers.Laws.{
  listed_all, milestones, reduce_all-complete, reduce_all-waiting,
}

-- The events of a mission that meets no obstacle.
abbrev straight : List Event
straight = map listed (
    EventType.genesis ∷ EventType.plan_started ∷ EventType.plan_completed
    ∷ EventType.episode_started ∷ EventType.checkpoint_reached ∷ EventType.verification_started
    ∷ EventType.verification_passed ∷ EventType.review_started ∷ EventType.review_approved
    ∷ EventType.canonicalization_started ∷ EventType.canonicalization_completed ∷ [])

completes : reduce_all initial_state straight ≡ ok (active MissionState.complete)
unfolding reduce_all initial_state reduce_state
completes = refl

reduce_all-complete_example : Subseq (listed_all (milestones MissionState.created)) straight
reduce_all-complete_example = reduce_all-complete straight completes

waits :
    reduce_all (waiting WaitState.blocked) (listed EventType.genesis ∷ [])
    ≡ ok (waiting WaitState.blocked)
unfolding reduce_all reduce_state
waits = refl

reduce_all-waiting_example :
    (waiting WaitState.blocked ≡ waiting WaitState.blocked)
    × All (λ e. e ≡ listed EventType.genesis) (listed EventType.genesis ∷ [])
reduce_all-waiting_example =
    reduce_all-waiting WaitState.blocked (waiting WaitState.blocked) (listed EventType.genesis ∷ [])
      waits
