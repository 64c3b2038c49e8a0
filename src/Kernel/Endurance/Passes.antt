-- ===== src/Kernel/Endurance/Passes.antt =====
-- The canary on an empty ledger: its episodes, and the report that they lead to.
use mathlib.Core.Path.{subst}
use second_brain_coordinatio.Prelude.{
  ℕ, zero, suc, ◌+◌, ◌*◌, ◌≤◌, Text, codes, text_eq_refl, Bool, true, false, not, [], ◌∷◌,
  Bool-cases, ◌≡◌, ◌∙◌, refl, arith, ◌==◌, ◌&&◌, ◌||◌, ltb, leb, map, length, ok, err, inl, inr,
  ◌⊎◌, lookup, insert, lookup-insert, if◌then◌else◌, Option,
}
use second_brain_coordinatio.Kernel.Schemas.{
  State, active, EventType, listed, MissionState, event_of_text,
}
use second_brain_coordinatio.Kernel.Reducers.{
  illegal_transition, reduce_state, reduce_all, is_complete,
}
use second_brain_coordinatio.Kernel.Verifier.{build_genesis_event}
use second_brain_coordinatio.Kernel.Tables.{
  Ledger, LedgerError, empty, Mission, row_of, append_event_locked, current_state,
}
use second_brain_coordinatio.Kernel.Ledger.{Replayed, append_event, create_mission}
use second_brain_coordinatio.Kernel.Ledger.Chain.{Collision}
use second_brain_coordinatio.Kernel.Ledger.Invariant.{create_mission-IsSound, empty-IsSound}
use second_brain_coordinatio.Kernel.Ledger.Replay.{
  verify_chain-IsSound, replay_state-IsSound, read_events-IsSound,
}
use second_brain_coordinatio.Kernel.Endurance.{
  CanaryReport, Progress, at_minute, episode_snapshot, crash, crashed, rolled_over, maybe_crash,
  resume_event, episode, episode_loop, planning_events, finishing_events, report, run, emit_event,
  emit_events,
}
use second_brain_coordinatio.Kernel.Endurance.Steps.{
  IsAt, emit_event-IsAt, checkpoint-IsAt, emit_events-IsAt,
}

-- The first thing is at hand, and the second one follows from it, unless the exception arises.
attempt : {A B C : Type 0} → A ⊎ C → (A → B ⊎ C) → B ⊎ C
attempt (inl a) next = next a
attempt (inr c) next = inr c

abbrev one_if : Bool → ℕ
one_if b = if b then 1 else 0

reaches :
    reduce_state (active MissionState.episode_running) (event_of_text (codes "CHECKPOINT_REACHED"))
    ≡ ok (active MissionState.checkpointed)
unfolding reduce_state event_of_text
reaches = refl

starts :
    reduce_state (active MissionState.ready) (event_of_text (resume_event 1))
    ≡ ok (active MissionState.episode_running)
unfolding reduce_state event_of_text resume_event
starts = refl

resumes :
    (ep : ℕ)
    → 2 ≤ ep
    → reduce_state (active MissionState.checkpointed) (event_of_text (resume_event ep))
      ≡ ok (active MissionState.episode_running)
unfolding reduce_state event_of_text resume_event
resumes ep late = elim (Bool-cases (ep == 1)) [
  | inl first ↦ absurd (ground arith)
  | inr later ↦ rw (later, resume_event) refl
]

plans :
    reduce_all (active MissionState.created) (map (λ e. event_of_text e.0) planning_events)
    ≡ ok (active MissionState.ready)
unfolding reduce_all reduce_state event_of_text
plans = refl

finishes :
    reduce_all (active MissionState.checkpointed) (map (λ e. event_of_text e.0) finishing_events)
    ≡ ok (active MissionState.complete)
unfolding reduce_all reduce_state event_of_text
finishes = refl

refused :
    reduce_state (active MissionState.ready) (event_of_text (codes "VERIFICATION_STARTED"))
    ≡ err (illegal_transition (active MissionState.ready) (listed EventType.verification_started))
unfolding reduce_state event_of_text
refused = refl

-- What `replay_state` returns for a row.
abbrev replayed_at : Mission → Option Text → Replayed
replayed_at row last = record {
  state = row.state;
  state_seq = row.state_seq;
  event_count = suc row.state_seq;
  last_event_type = last;
}

-- What a report says that the canary comes to.
pub record Reports (episodes : ℕ) (inject : Bool) (r : CanaryReport) : Type 0 where
  pub completed : r.final_state ≡ active MissionState.complete
  pub verified : r.chain_verified ≡ true
  pub total : r.total_events ≡ 2 * episodes + 9
  pub rolled : r.context_rollovers ≡ episodes
  pub failed : r.worker_failures_injected ≡ one_if (inject && leb 2 episodes)
  pub verdict : r.passed ≡ (not inject || leb 2 episodes)

module _ (sha256 : Text → Text) (m : Text) where
  abbrev checkpointed : State
  checkpointed = active MissionState.checkpointed

  -- What the loop has at the start of an episode, or in the middle of one.
  abbrev Stands : State → ℕ → ℕ → ℕ → ℕ → Progress → Type 0
  Stands s n b failures rollovers p =
      IsAt sha256 m s n b p.ledger × (p.worker_failures ≡ failures) × (p.rollovers ≡ rollovers)

  created :
      (l : Ledger) × (create_mission sha256 m
          (codes "run-canary")
          (codes "2026-09-09T00:00:00Z")
          (codes "WORKBUDDY_ENGINEERING_EXECUTOR")
          empty
        ≡ ok l)
      × IsAt sha256 m (active MissionState.created) 0 0 l
  unfolding create_mission append_event_locked build_genesis_event lookup
  created =
      let actor = codes "WORKBUDDY_ENGINEERING_EXECUTOR" in
      let start = codes "2026-09-09T00:00:00Z" in
      let row : Mission = record {
        run_id = codes "run-canary";
        state = active MissionState.created;
        state_seq = 0;
        created_at = start;
        updated_at = start;
      } in
      let l : Ledger = record {
        missions = insert m row [];
        events = row_of (build_genesis_event sha256 m (codes "run-canary") actor start) ∷ [];
        checkpoints = [];
      } in
      (
        l,
        refl,
        record {
          sound =
              create_mission-IsSound sha256 m (codes "run-canary") start actor empty l
                (empty-IsSound sha256) refl;
          row = row;
          known = lookup-insert m m row [] ∙ rw (text_eq_refl m) refl;
          state = refl;
          seq = refl;
          marks = tt;
        },
      )

  maybe_crash-Stands :
      (inject : Bool) (p : Progress) {s : State} {n b f r : ℕ}
      → Stands s n b f r p
      → ((q : Progress) × (maybe_crash sha256 m inject p ≡ ok q)
          × Stands s n b (f + one_if inject) r q)
        ⊎ Collision sha256
  unfolding maybe_crash crash crashed
  maybe_crash-Stands false p at = inl (p, refl, (at.0, omega (arith, at.1), at.2))
  maybe_crash-Stands true p at =
      attempt (verify_chain-IsSound sha256 m p.ledger at.0.row at.0.sound at.0.known)
        (λ verified. inl (crashed p, rw verified refl, (at.0, omega (arith, at.1), at.2)))

  episode-Stands :
      (inject : Bool) (ep : ℕ) (p : Progress) {s : State} {n b f r : ℕ}
      → Stands s n b f r p
      → b ≤ suc n
      → reduce_state s (event_of_text (resume_event ep)) ≡ ok (active MissionState.episode_running)
      → ((q : Progress) × (episode sha256 m inject ep p ≡ ok q)
          × Stands checkpointed
              (suc (suc n))
              (suc (suc n))
              (f + one_if (inject && (ep == 2)))
              (suc r)
              q)
        ⊎ Collision sha256
  unfolding episode rolled_over
  episode-Stands inject ep p {s} {n} {b} {f} {r} at le start =
      let (l1, started, at1) =
        emit_event-IsAt sha256 m (resume_event ep) (at_minute ep (codes "00")) at.0 start in
      let (l2, marked, at2) =
        checkpoint-IsAt sha256 m (episode_snapshot ep) (at_minute ep (codes "30")) at1 le in
      attempt
        (maybe_crash-Stands (inject && (ep == 2)) (record p { ledger = l2 }) (at2, at.1, at.2))
        (λ (q, survived, at3).
          let (l4, reached, at4) =
            emit_event-IsAt sha256 m (codes "CHECKPOINT_REACHED") (at_minute ep (codes "40")) at3.0
              reaches in
          attempt (replay_state-IsSound sha256 m l4 at4.row at4.sound at4.known)
            (λ (last, replayed). inl (
              rolled_over ep (replayed_at at4.row last) (record q { ledger = l4 }),
              rw (started, marked, survived, reached, replayed) refl,
              (at4, at3.1, omega (arith, at3.2)),
            )))

  -- The same with other names for the numbers.
  recount :
      (p : Progress) {s : State} {n b f r n' f' r' : ℕ}
      → Stands s n b f r p
      → n ≡ n'
      → f ≡ f'
      → r ≡ r'
      → Stands s n' b f' r' p
  recount p {s} {b = b} at en ef er =
      (subst (λ k. IsAt sha256 m s k b p.ledger) en at.0, at.1 ∙ ef, at.2 ∙ er)

  -- The episodes from the second one on.
  loop-Stands :
      (inject : Bool) (rounds ep : ℕ) (p : Progress) {n b f r : ℕ}
      → Stands checkpointed n b f r p
      → b ≤ suc n
      → 2 ≤ ep
      → ((q : Progress) × (episode_loop sha256 m inject rounds ep p ≡ ok q)
          × ((b' : ℕ) × Stands checkpointed
                (n + 2 * rounds)
                b'
                (f + one_if (inject && (ep == 2) && ltb 0 rounds))
                (r + rounds)
                q))
        ⊎ Collision sha256
  unfolding episode_loop
  loop-Stands inject zero ep p {n} {b} {f} {r} at le late =
      inl (p, refl, (b, recount p at (omega arith) (ground arith) (omega arith)))
  loop-Stands inject (suc k) ep p {n} {b} {f} {r} at le late =
      attempt (episode-Stands inject ep p at le (resumes ep late)) (λ (q, driven, at1).
        attempt (loop-Stands inject k (suc ep) q at1 (omega arith) (omega arith))
          (λ (z, looped, (b', at2)).
            inl (
              z,
              rw driven looped,
              (b', recount z at2 (omega arith) (ground arith) (omega arith)),
            )))

  -- The report of a mission whose chain verifies.
  abbrev final_report : ℕ → Bool → Progress → State → ℕ → CanaryReport
  final_report episodes inject p final_state total = record {
    mission_id = m;
    final_state = final_state;
    total_events = total;
    episodes = episodes;
    worker_failures_injected = p.worker_failures;
    context_rollovers = p.rollovers;
    chain_verified = true;
    passed =
        is_complete final_state
        && true
        && leb (if inject then 1 else 0) p.worker_failures
        && leb 1 p.rollovers;
    evidence = p.evidence;
  }

  report-Reports :
      (episodes : ℕ) (inject : Bool) (p : Progress) {b : ℕ}
      → 1 ≤ episodes
      → Stands
          (active MissionState.complete)
          (2 * episodes + 8)
          b
          (one_if (inject && leb 2 episodes))
          episodes
          p
      → ((r : CanaryReport) × (report sha256 m episodes inject p ≡ ok r)
          × Reports episodes inject r)
        ⊎ Collision sha256
  unfolding report current_state is_complete
  report-Reports episodes inject p some_episode at =
      let (events, was_read, counted) =
        read_events-IsSound sha256 m p.ledger at.0.row at.0.sound at.0.known in
      attempt (verify_chain-IsSound sha256 m p.ledger at.0.row at.0.sound at.0.known) (λ verified.
        inl (
          final_report episodes inject p at.0.row.state (length events),
          rw (at.0.known, was_read, verified) refl,
          record {
            completed = at.0.state;
            verified = refl;
            total = counted ∙ omega (arith, at.0.seq);
            rolled = at.2;
            failed = at.1;
            verdict = rw (at.0.state, at.1, at.2) (ground arith);
          },
        ))

  -- With at least one episode on an empty ledger, the canary returns a report, unless two texts that
  -- are hashed to one are at hand: the mission is complete, its chain verifies, there are two events
  -- for each episode and nine more, every episode was rolled over, and the canary has passed exactly
  -- if no failure was to be injected or there are two episodes or more.
  pub run-Reports :
      (episodes : ℕ) (inject : Bool)
      → 1 ≤ episodes
      → ((r : CanaryReport) × (run sha256 m episodes inject empty ≡ ok r)
          × Reports episodes inject r)
        ⊎ Collision sha256
  unfolding run episode_loop
  run-Reports zero inject some_episode = absurd (omega arith)
  run-Reports (suc k) inject some_episode =
      let (l1, made, at1) = created in
      let (l2, planned, at2) = emit_events-IsAt sha256 m planning_events at1 plans in
      let start : Progress = record {
        ledger = l2;
        worker_failures = 0;
        rollovers = 0;
        evidence = [];
      } in
      attempt (episode-Stands inject 1 start (at2, refl, refl) (omega arith) starts)
        (λ (p, first, at3).
          attempt (loop-Stands inject k 2 p at3 (omega arith) (omega arith))
            (λ (q, looped, (b, at4)).
              let (l5, finished, at5) = emit_events-IsAt sha256 m finishing_events at4.0 finishes in
              attempt
                (report-Reports (suc k) inject (record q { ledger = l5 }) some_episode
                  (recount (record q { ledger = l5 }) (at5, at4.1, at4.2) (omega arith)
                    (ground arith) (omega arith)))
                (λ (r, reported, says).
                  inl (r, rw (made, planned, first, looped, finished) reported, says))))

  -- Without episodes the canary raises, whether a failure is to be injected or not: the reducer
  -- refuses the start of the verification of a mission that is ready.
  pub run-refuses :
      (inject : Bool)
      → run sha256 m 0 inject empty
        ≡ err (
            LedgerError.illegal (
              illegal_transition
                (active MissionState.ready)
                (listed EventType.verification_started)))
  unfolding run episode_loop emit_events emit_event append_event
  run-refuses inject =
      let (l1, made, at1) = created in
      let (l2, planned, at2) = emit_events-IsAt sha256 m planning_events at1 plans in
      rw (made, planned, at2.known, at2.state, refused) refl
