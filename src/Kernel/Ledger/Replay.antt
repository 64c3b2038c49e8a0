-- ===== src/Kernel/Ledger/Replay.antt =====
-- Reading the ledger back: lemmas on `verify_chain` and `replay_state` of kernel/ledger.py.
use second_brain_coordinatio.Prelude.{
  ℕ, suc, ◌+◌, Text, ◌≡◌, refl, sym, Bool, true, false, Option, none, some, List, [], ◌∷◌, ◌++◌,
  Result, ok, >>=-eq-ok, Result-cases, Option-cases, length, map, arith, ap, ◌∙◌, ◌⊎◌, inl, inr,
  lookup, is_ok, any, append_assoc, append-nil, select, raise_if, is_some,
}
use second_brain_coordinatio.Kernel.Schemas
use second_brain_coordinatio.Kernel.Schemas.{State, active, event_of_text}
use second_brain_coordinatio.Kernel.Reducers.{reduce_state, reduce_all}
use second_brain_coordinatio.Kernel.Canonical.Json.{Value}
use second_brain_coordinatio.Kernel.Verifier.{
  EventRecord, ChainError, Progress, fresh, verify_events, verify_event_chain,
}
use second_brain_coordinatio.Kernel.Ledger.{
  replay_loop, verify_chain, replay_state, append_event, create_mission,
}
use second_brain_coordinatio.Kernel.Tables.{
  Ledger, empty, Mission, EventRow, row_of, of_mission, same_key, rows_of, read_events,
  append_event_locked, checkpoint, lift_chain, mission_exists,
}
use second_brain_coordinatio.Kernel.Ledger.Rows.{
  reread, sort_rows-NumberedFrom, read_rows-row_of, any-same_key, any-NumberedFrom,
}
use second_brain_coordinatio.Kernel.Ledger.Chain.{Collision, IsChain, event_of}
use second_brain_coordinatio.Kernel.Ledger.Invariant.{
  Op, create, append, mark, perform, run, IsSound, Holds, empty-IsSound, run-IsSound, after,
  append_event-eq_ok, append_event-unknown,
}

length-map-reread : (es : List EventRecord) → length (map reread es) ≡ length es
length-map-reread [] = refl
length-map-reread (e ∷ es) = ap suc (length-map-reread es)

replay_loop-reduced :
    (s u : State) (count : ℕ) (t : Option Text) (es : List EventRecord)
    → reduce_all s (map event_of es) ≡ ok u
    → (t' : Option Text) × (replay_loop s count t (map reread es) ≡ ok (u, count + length es, t'))
unfolding replay_loop reduce_all reread
replay_loop-reduced s u count t [] h = (t, ground arith)
replay_loop-reduced s u count t (e ∷ es) h =
    let (v, step, rest) =
      >>=-eq-ok (reduce_state s (event_of e)) (λ n. reduce_all n (map event_of es)) h in
    let (t', looped) = replay_loop-reduced v u (count + 1) (some e.event_type) es rest in
    (t', rw step (looped ∙ ap (λ k. ok (u, k, t')) (omega arith)))

module _ (sha256 : Text → Text) where
  read_events-IsChain :
      (m : Text) (l : Ledger) (es : List EventRecord) (s : State) (n : ℕ)
      → select (of_mission m) l.events ≡ map row_of es
      → IsChain sha256 es s n
      → read_events m l ≡ ok (map reread es)
  unfolding read_events rows_of
  read_events-IsChain m l es s n rows c =
      rw (rows, sort_rows-NumberedFrom 0 es c.numbered) (read_rows-row_of es)

  verify_event_chain-passed :
      (e : EventRecord) (es : List EventRecord) {p : Progress}
      → verify_events sha256 fresh (e ∷ es) ≡ ok p
      → verify_event_chain sha256 (e ∷ es) ≡ ok true
  unfolding verify_event_chain
  verify_event_chain-passed e es h = rw h refl

  verify_event_chain-IsChain :
      (es : List EventRecord) (s : State) (n : ℕ)
      → IsChain sha256 es s n
      → (verify_event_chain sha256 (map reread es) ≡ ok true) ⊎ Collision sha256
  verify_event_chain-IsChain [] s n c = absurd (omega (arith, c.counted))
  verify_event_chain-IsChain (e ∷ es) s n c = elim c.verified [
    | inl (seen, passed, below) ↦ inl (verify_event_chain-passed (reread e) (map reread es) passed)
    | inr collision ↦ inr collision
  ]

  -- What the row of a mission says of its events.
  chain_of :
      (l : Ledger) (m : Text) (row : Mission)
      → IsSound sha256 l
      → lookup m l.missions ≡ some row
      → Holds sha256 (select (of_mission m) l.events) (some row)
  chain_of l m row s known = rw known at (s.at m)

  pub verify_chain-IsSound :
      (m : Text) (l : Ledger) (row : Mission)
      → IsSound sha256 l
      → lookup m l.missions ≡ some row
      → (verify_chain sha256 m l ≡ ok true) ⊎ Collision sha256
  unfolding verify_chain
  verify_chain-IsSound m l row s known =
      let (es, rows, c) = chain_of l m row s known in
      rw (read_events-IsChain m l es row.state row.state_seq rows c)
        (lifted (verify_event_chain-IsChain es row.state row.state_seq c))
    where
      lifted :
          {r : Result ChainError Bool}
          → (r ≡ ok true) ⊎ Collision sha256
          → (lift_chain r ≡ ok true) ⊎ Collision sha256
      lifted (inl h) = inl (rw h refl)
      lifted (inr c) = inr c

  -- After any calls, `verify_chain` returns True for every mission of the table, unless two texts
  -- that are hashed to one are at hand.
  pub verify_chain-run :
      (ops : List Op) (m : Text) {row : Mission}
      → lookup m (run sha256 ops empty).missions ≡ some row
      → (verify_chain sha256 m (run sha256 ops empty) ≡ ok true) ⊎ Collision sha256
  verify_chain-run ops m {row} known =
      verify_chain-IsSound m (run sha256 ops empty) row
        (run-IsSound sha256 ops empty (empty-IsSound sha256)) known

  replay_state-IsChain :
      (m : Text) (l : Ledger) (es : List EventRecord) (s : State) (n : ℕ)
      → select (of_mission m) l.events ≡ map row_of es
      → IsChain sha256 es s n
      → verify_event_chain sha256 (map reread es) ≡ ok true
      → (t : Option Text) × (replay_state sha256 m l
          ≡ ok (record { state = s; state_seq = n; event_count = suc n; last_event_type = t }))
  unfolding replay_state
  replay_state-IsChain m l es s n rows c checked =
      let (t, looped) =
        replay_loop-reduced (active Schemas.MissionState.created) s 0 none es c.reduced in
      (
        t,
        rw (read_events-IsChain m l es s n rows c, checked, looped, length-map-reread es, c.counted)
            (ground arith),
      )

  pub replay_state-IsSound :
      (m : Text) (l : Ledger) (row : Mission)
      → IsSound sha256 l
      → lookup m l.missions ≡ some row
      → ((t : Option Text) × (replay_state sha256 m l
            ≡ ok (record {
              state = row.state;
              state_seq = row.state_seq;
              event_count = suc row.state_seq;
              last_event_type = t;
            })))
        ⊎ Collision sha256
  replay_state-IsSound m l row s known =
      let (es, rows, c) = chain_of l m row s known in
      elim (verify_event_chain-IsChain es row.state row.state_seq c) [
        | inl checked ↦ inl (replay_state-IsChain m l es row.state row.state_seq rows c checked)
        | inr collision ↦ inr collision
      ]

  -- The events that are read are one more than the sequence number of the row.
  pub read_events-IsSound :
      (m : Text) (l : Ledger) (row : Mission)
      → IsSound sha256 l
      → lookup m l.missions ≡ some row
      → (es : List EventRecord) × (read_events m l ≡ ok es) × (length es ≡ suc row.state_seq)
  read_events-IsSound m l row s known =
      let (es, rows, c) = chain_of l m row s known in
      (
        map reread es,
        read_events-IsChain m l es row.state row.state_seq rows c,
        length-map-reread es ∙ c.counted,
      )

  -- After any calls, `replay_state` of a mission in the table returns the state and the sequence
  -- number that the table holds, and counts one event more than that number, unless two texts
  -- that are hashed to one are at hand.
  pub replay_state-run :
      (ops : List Op) (m : Text) {row : Mission}
      → lookup m (run sha256 ops empty).missions ≡ some row
      → ((t : Option Text) × (replay_state sha256 m (run sha256 ops empty)
            ≡ ok (record {
              state = row.state;
              state_seq = row.state_seq;
              event_count = suc row.state_seq;
              last_event_type = t;
            })))
        ⊎ Collision sha256
  replay_state-run ops m {row} known =
      replay_state-IsSound m (run sha256 ops empty) row
        (run-IsSound sha256 ops empty (empty-IsSound sha256)) known

  free_key :
      (l : Ledger) (m : Text) (row : Mission)
      → IsSound sha256 l
      → lookup m l.missions ≡ some row
      → any (same_key m (row.state_seq + 1)) l.events ≡ false
  free_key l m row s known =
      let (es, rows, c) = chain_of l m row s known in
      rw (any-same_key m (row.state_seq + 1) l.events, rows)
        (any-NumberedFrom 0 (row.state_seq + 1) es c.numbered (omega (arith, c.counted)))

  -- On sound tables no row of the table `events` is in the way of `append_event`.
  pub append_event-is_ok :
      (m e a t : Text) (p d : Value) (l : Ledger) (row : Mission)
      → IsSound sha256 l
      → lookup m l.missions ≡ some row
      → is_ok (append_event sha256 m e a t p d l) ≡ is_ok (reduce_state row.state (event_of_text e))
  unfolding append_event append_event_locked
  append_event-is_ok m e a t p d l row s known =
      elim (Result-cases (reduce_state row.state (event_of_text e))) [
        | inl (next, step) ↦ rw (known, step, free_key l m row s known) refl
        | inr (problem, step) ↦ rw (known, step) refl
      ]

  -- After any calls, `append_event` on a mission of the table returns exactly when the reducer
  -- accepts the event: no row of the table `events` is in its way.
  pub append_event-run :
      (ops : List Op) (m e a t : Text) (p d : Value) {row : Mission}
      → lookup m (run sha256 ops empty).missions ≡ some row
      → is_ok (append_event sha256 m e a t p d (run sha256 ops empty))
        ≡ is_ok (reduce_state row.state (event_of_text e))
  append_event-run ops m e a t p d {row} known =
      append_event-is_ok m e a t p d (run sha256 ops empty) row
        (run-IsSound sha256 ops empty (empty-IsSound sha256)) known

  abbrev Grows : Ledger → Ledger → Type 0
  Grows l l' = (more : List EventRow) × (l'.events ≡ l.events ++ more)

  append_event_locked-Grows :
      (e : EventRecord) (l l' : Ledger) → append_event_locked e l ≡ ok l' → Grows l l'
  unfolding append_event_locked
  append_event_locked-Grows e l l' h = (row_of e ∷ [], ground arith)

  append_event-Grows :
      (m e a t : Text) (p d : Value) (l : Ledger) (r : EventRecord × Ledger)
      → append_event sha256 m e a t p d l ≡ ok r
      → Grows l r.1
  append_event-Grows m e a t p d l (ev, l') h = elim (Option-cases (lookup m l.missions)) [
    | inl unknown ↦ absurd (append_event-unknown sha256 m e a t p d l (ev, l') unknown h)
    | inr (row, known) ↦
        let (next, step, is_next, left) =
          append_event-eq_ok sha256 m e a t p d l l' row ev known h in
        (row_of ev ∷ [], ap (λ (k : Ledger). k.events) left)
  ]

  perform-Grows : (op : Op) (l l' : Ledger) → perform sha256 op l ≡ ok l' → Grows l l'
  unfolding perform create_mission checkpoint
  perform-Grows (create m r t a) l l' h =
      let (unit, new, h1) =
        >>=-eq-ok (raise_if (is_some (lookup m l.missions)) (mission_exists m)) _ h in
      append_event_locked-Grows _ _ l' h1
  perform-Grows (append m e a t p d) l l' h =
      let (r, done, last_step) = >>=-eq-ok (append_event sha256 m e a t p d l) (λ r. ok r.1) h in
      let (more, grown) = append_event-Grows m e a t p d l r done in (more, cc)
  perform-Grows (mark m x t) l l' h = ([], ground (arith, append-nil l.events))

  perform-events : (op : Op) (l : Ledger) → Grows l (after l (perform sha256 op l))
  perform-events op l = elim (Result-cases (perform sha256 op l)) [
    | inl (l', done) ↦ rw done (perform-Grows op l l' done)
    | inr (problem, failed) ↦ rw failed ([], sym (append-nil l.events))
  ]

  -- The table of events only grows, at its end.
  pub run-events :
      (ops : List Op) (l : Ledger)
      → (more : List EventRow) × ((run sha256 ops l).events ≡ l.events ++ more)
  unfolding run
  run-events [] l = ([], sym (append-nil l.events))
  run-events (op ∷ ops) l =
      let (first, p) = perform-events op l in
      let (rest, q) = run-events ops (after l (perform sha256 op l)) in
      (first ++ rest, q ∙ ap (λ es. es ++ rest) p ∙ append_assoc l.events first rest)
