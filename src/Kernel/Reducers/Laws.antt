-- ===== src/Kernel/Reducers/Laws.antt =====
-- reducers.py: which states end a mission, and what a completed mission has gone through.
use mathlib.Core.Path.{subst}
use second_brain_coordinatio.Prelude.{
  ◌≡◌, refl, Bool, true, false, Option, none, some, List, [], ◌∷◌, Result, ok, err, >>=-eq-ok,
  Subseq, done, keep, drop, Subseq-tail, All, if◌then◌else◌,
}
use second_brain_coordinatio.Kernel.Schemas.{
  MissionState, WaitState, State, active, waiting, EventType, Event, listed,
}
use second_brain_coordinatio.Kernel.Reducers.{
  ReducerError, illegal_transition, transitions, any_active_pauses, from_active, other_event,
  reduce_state, reduce_all, initial_state,
}

-- The milestones of the way to COMPLETE, from its end backwards.
abbrev to_complete : List EventType
to_complete = []

abbrev to_canonicalizing : List EventType
to_canonicalizing = EventType.canonicalization_completed ∷ to_complete

abbrev to_canonicalization_ready : List EventType
to_canonicalization_ready = EventType.canonicalization_started ∷ to_canonicalizing

abbrev to_reviewing : List EventType
to_reviewing = EventType.review_approved ∷ to_canonicalization_ready

abbrev to_review_ready : List EventType
to_review_ready = EventType.review_started ∷ to_reviewing

abbrev to_verifying : List EventType
to_verifying = EventType.verification_passed ∷ to_review_ready

abbrev to_remediating : List EventType
to_remediating = EventType.remediation_completed ∷ to_verifying

abbrev to_checkpointed : List EventType
to_checkpointed = EventType.verification_started ∷ to_verifying

abbrev to_episode_running : List EventType
to_episode_running = EventType.checkpoint_reached ∷ to_checkpointed

abbrev to_ready : List EventType
to_ready = EventType.episode_started ∷ to_episode_running

abbrev to_planning : List EventType
to_planning = EventType.plan_completed ∷ to_ready

abbrev to_created : List EventType
to_created = EventType.plan_started ∷ to_planning

-- The milestones that lie ahead of a state on every way to COMPLETE.
abbrev pub milestones : MissionState → List EventType
milestones MissionState.complete = to_complete
milestones MissionState.canonicalizing = to_canonicalizing
milestones MissionState.canonicalization_ready = to_canonicalization_ready
milestones MissionState.reviewing = to_reviewing
milestones MissionState.review_ready = to_review_ready
milestones MissionState.verifying = to_verifying
milestones MissionState.remediating = to_remediating
milestones MissionState.checkpointed = to_checkpointed
milestones MissionState.episode_running = to_episode_running
milestones MissionState.ready = to_ready
milestones MissionState.planning = to_planning
milestones MissionState.created = to_created

abbrev pub is_genesis : EventType → Bool
is_genesis EventType.genesis = true
is_genesis _ = false

abbrev pub listed_all : List EventType → List Event
listed_all [] = []
listed_all (e ∷ es) = listed e ∷ listed_all es

-- What must still happen for `es` to lead from a state to COMPLETE.
abbrev Ahead : State → List Event → Type 0
Ahead (active s) es = Subseq (listed_all (milestones s)) es
Ahead (waiting _) es = ⊥
Ahead (State.unlisted _) es = ⊥

Ahead-eq : (s t : State) (es : List Event) → some s ≡ some t → Ahead t es → Ahead s es
Ahead-eq s t es h a = subst (λ u. Ahead u es) (cc) a

Ahead-eq_ok :
    (s t : State) (es : List Event)
    → ◌≡◌ {A = Result ReducerError State} (ok s) (ok t)
    → Ahead t es
    → Ahead s es
Ahead-eq_ok s t es h a = subst (λ u. Ahead u es) (cc) a

transitions-Ahead :
    (s : MissionState) (e : EventType) (t : State) (es : List Event)
    → transitions s e ≡ some t
    → Ahead t es
    → Ahead (active s) (listed e ∷ es)
unfolding transitions
transitions-Ahead MissionState.created EventType.plan_started t es h a = keep (Ahead-eq _ t es h a)
transitions-Ahead MissionState.planning EventType.plan_completed t es h a =
    keep (Ahead-eq _ t es h a)
transitions-Ahead MissionState.ready EventType.episode_started t es h a = keep (Ahead-eq _ t es h a)
transitions-Ahead MissionState.episode_running EventType.checkpoint_reached t es h a =
    keep (Ahead-eq _ t es h a)
transitions-Ahead MissionState.episode_running EventType.circuit_breaker_tripped t es h a =
    absurd (Ahead-eq _ t es h a)
transitions-Ahead MissionState.checkpointed EventType.episode_resumed t es h a =
    drop (Subseq-tail (Ahead-eq _ t es h a))
transitions-Ahead MissionState.checkpointed EventType.verification_started t es h a =
    keep (Ahead-eq _ t es h a)
transitions-Ahead MissionState.verifying EventType.verification_passed t es h a =
    keep (Ahead-eq _ t es h a)
transitions-Ahead MissionState.verifying EventType.verification_failed t es h a =
    drop (Subseq-tail (Ahead-eq _ t es h a))
transitions-Ahead MissionState.remediating EventType.remediation_completed t es h a =
    keep (Ahead-eq _ t es h a)
transitions-Ahead MissionState.review_ready EventType.review_started t es h a =
    keep (Ahead-eq _ t es h a)
transitions-Ahead MissionState.reviewing EventType.review_approved t es h a =
    keep (Ahead-eq _ t es h a)
transitions-Ahead MissionState.reviewing EventType.review_rejected t es h a =
    drop (Subseq-tail (Subseq-tail (Subseq-tail (Ahead-eq _ t es h a))))
transitions-Ahead MissionState.canonicalization_ready EventType.canonicalization_started t es h a =
    keep (Ahead-eq _ t es h a)
transitions-Ahead MissionState.canonicalizing EventType.canonicalization_completed t es h a =
    keep (Ahead-eq _ t es h a)
transitions-Ahead _ _ t es h a = cc

from_active-Ahead :
    (s : MissionState) (e : EventType) (o : Option State) (p : Option WaitState) (t : State)
    (es : List Event)
    → transitions s e ≡ o
    → from_active s e o p ≡ ok t
    → Ahead t es
    → Ahead (active s) (listed e ∷ es)
unfolding from_active
from_active-Ahead s e (some u) p t es q h a = transitions-Ahead s e t es (cc) a
from_active-Ahead s e none (some w) t es q h a = absurd (Ahead-eq_ok (waiting w) t es h a)
from_active-Ahead s e none none t es q h a = cc

other_event-Ahead :
    (s t : State) (e : EventType) (es : List Event)
    → other_event s e ≡ ok t
    → Ahead t es
    → Ahead s (listed e ∷ es)
unfolding other_event
other_event-Ahead (active s) t e es h a =
    from_active-Ahead s e (transitions s e) (any_active_pauses e) t es refl h a
other_event-Ahead (waiting w) t e es h a = cc
other_event-Ahead (State.unlisted x) t e es h a = cc

genesis-Ahead : (s : State) (e : Event) (es : List Event) → Ahead s es → Ahead s (e ∷ es)
genesis-Ahead (active s) e es a = drop a
genesis-Ahead (waiting w) e es a = a
genesis-Ahead (State.unlisted x) e es a = a

reduce_state-Ahead :
    (s t : State) (e : Event) (es : List Event)
    → reduce_state s e ≡ ok t
    → Ahead t es
    → Ahead s (e ∷ es)
unfolding reduce_state
reduce_state-Ahead s t (listed EventType.genesis) es h a =
    genesis-Ahead s _ es (Ahead-eq_ok s t es h a)
reduce_state-Ahead s t (listed e) es h a = other_event-Ahead s t e es h a
reduce_state-Ahead s t (Event.unlisted x) es h a = cc

reduce_all-Ahead :
    (s : State) (es : List Event) → reduce_all s es ≡ ok (active MissionState.complete) → Ahead s es
unfolding reduce_all
reduce_all-Ahead s [] h = Ahead-eq_ok s (active MissionState.complete) [] h done
reduce_all-Ahead s (e ∷ es) h =
    let (t, step, rest) = >>=-eq-ok (reduce_state s e) (λ n. reduce_all n es) h in
    reduce_state-Ahead s t e es step (reduce_all-Ahead t es rest)

-- A sequence of events that takes a mission from CREATED to COMPLETE holds, in this order, the
-- events of planning, an episode, a checkpoint, a verification that passed, a review that
-- approved and the canonicalization.
pub reduce_all-complete :
    (es : List Event)
    → reduce_all initial_state es ≡ ok (active MissionState.complete)
    → Subseq (listed_all (milestones MissionState.created)) es
unfolding initial_state
reduce_all-complete es h = reduce_all-Ahead (active MissionState.created) es h

-- A waiting state is never left: if it reduces at all, every event was GENESIS and the state is
-- the same.
pub reduce_all-waiting :
    (w : WaitState) (t : State) (es : List Event)
    → reduce_all (waiting w) es ≡ ok t
    → (t ≡ waiting w) × All (λ e. e ≡ listed EventType.genesis) es
unfolding reduce_all reduce_state
reduce_all-waiting w t [] h = (cc, tt)
reduce_all-waiting w t (listed EventType.genesis ∷ es) h =
    let (same, rest) = reduce_all-waiting w t es h in (same, (refl, rest))
reduce_all-waiting w t (listed e ∷ es) h = cc
reduce_all-waiting w t (Event.unlisted x ∷ es) h = cc

-- A completed mission accepts GENESIS, which changes nothing, and the four pause events, each of
-- which takes it to its wait state; any other event raises.
pub reduce_state-complete :
    (e : EventType)
    → reduce_state (active MissionState.complete) (listed e) ≡ (
        if is_genesis e then ok (active MissionState.complete) else elim (any_active_pauses e) [
          | some w ↦ ok (waiting w)
          | none ↦ err (illegal_transition (active MissionState.complete) (listed e))
        ])
unfolding reduce_state
reduce_state-complete EventType.genesis = refl
reduce_state-complete _ = refl
