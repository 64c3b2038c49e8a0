-- ===== src/Kernel/Endurance/Steps.antt =====
-- A mission that is driven by `append_event` and `checkpoint`: where it stands after each call.
use mathlib.Core.Path.{subst}
use second_brain_coordinatio.Prelude.{
  ℕ, suc, ◌+◌, ◌≤◌, ◌<◌, Text, codes, text_eq_refl, true, false, some, List, [], ◌∷◌, ◌++◌, ◌≡◌,
  ◌∙◌, refl, sym, ap, arith, any, map, length, Result, ok, err, >>=-eq-ok, is_ok, ok_injective,
  lookup, lookup-insert, All, All-weaken, All-snoc,
}
use second_brain_coordinatio.Kernel.Schemas.{State, event_of_text}
use second_brain_coordinatio.Kernel.Reducers.{reduce_state, reduce_all}
use second_brain_coordinatio.Kernel.Canonical.Json.{Value, obj, end}
use second_brain_coordinatio.Kernel.Verifier.{EventRecord}
use second_brain_coordinatio.Kernel.Tables.{
  Ledger, Mission, CheckpointRow, same_checkpoint, checkpoint,
}
use second_brain_coordinatio.Kernel.Ledger.{append_event}
use second_brain_coordinatio.Kernel.Ledger.Invariant.{
  IsSound, append_event-IsSound, append_event-eq_ok, checkpoint-IsSound,
}
use second_brain_coordinatio.Kernel.Ledger.Replay.{append_event-is_ok}
use second_brain_coordinatio.Kernel.Endurance.{emit_event, emit_events}

returned : {E A : Type 0} (r : Result E A) → is_ok r ≡ true → (a : A) × (r ≡ ok a)
returned (ok a) h = (a, refl)
returned (err e) h = cc

module _ (sha256 : Text → Text) (m : Text) where
  -- The mission is in state `s` with sequence number `n`, in sound tables, and its checkpoints stand
  -- below `b`.
  pub record IsAt (s : State) (n b : ℕ) (l : Ledger) : Type 0 where
    pub sound : IsSound sha256 l
    pub row : Mission
    pub known : lookup m l.missions ≡ some row
    pub state : row.state ≡ s
    pub seq : row.state_seq ≡ n
    pub marks : All (λ (c : CheckpointRow). c.state_seq < b) l.checkpoints

  -- The call that returns, with the tables that it leaves.
  appended :
      (e t : Text) {s next : State} {n b : ℕ} {l : Ledger} (r : EventRecord × Ledger)
      → IsAt s n b l
      → reduce_state s (event_of_text e) ≡ ok next
      → append_event sha256 m e (codes "CANARY") t (obj end) (obj end) l ≡ ok r
      → IsAt next (suc n) b r.1
  appended e t {s} {next} {n} {b} {l} (ev, l') at step done =
      let (next', taken, is_next, left) =
        append_event-eq_ok sha256 m e (codes "CANARY") t (obj end) (obj end) l l' at.row ev at.known
          done in
      let same : ok next' ≡ ok next = sym taken ∙ (rw at.state step) in
      record {
        sound =
            append_event-IsSound sha256 m e (codes "CANARY") t (obj end) (obj end) l (ev, l')
              at.sound done;
        row = record at.row { state = next'; state_seq = at.row.state_seq + 1; updated_at = t };
        known =
            ap (λ (k : Ledger). lookup m k.missions) left
            ∙ (lookup-insert m m _ l.missions ∙ rw (text_eq_refl m) refl);
        state = ok_injective same;
        seq = omega (arith, at.seq);
        marks =
            subst (All (λ (c : CheckpointRow). c.state_seq < b))
              (sym (ap (λ (k : Ledger). k.checkpoints) left)) at.marks;
      }

  pub emit_event-IsAt :
      (e t : Text) {s next : State} {n b : ℕ} {l : Ledger}
      → IsAt s n b l
      → reduce_state s (event_of_text e) ≡ ok next
      → (l' : Ledger) × (emit_event sha256 m e t l ≡ ok l') × IsAt next (suc n) b l'
  unfolding emit_event
  emit_event-IsAt e t {s} {next} {n} {b} {l} at step =
      let (r, done) = returned (append_event sha256 m e (codes "CANARY") t (obj end) (obj end) l) (
        append_event-is_ok sha256 m e (codes "CANARY") t (obj end) (obj end) l at.row at.sound
          at.known
        ∙ rw (at.state, step) refl) in
      (r.1, rw done refl, appended e t r at step done)

  any-marks :
      (b k : ℕ) (cs : List CheckpointRow)
      → All (λ (c : CheckpointRow). c.state_seq < b) cs
      → b ≤ k
      → any (same_checkpoint m k) cs ≡ false
  any-marks b k [] h le = refl
  any-marks b k (c ∷ cs) (h, hs) le = ground (arith, any-marks b k cs hs le)

  pub checkpoint-IsAt :
      (snapshot : Value) (t : Text) {s : State} {n b : ℕ} {l : Ledger}
      → IsAt s n b l
      → b ≤ n
      → (l' : Ledger) × (checkpoint m snapshot t l ≡ ok l') × IsAt s n (suc n) l'
  unfolding checkpoint
  checkpoint-IsAt snapshot t {s} {n} {b} {l} at le =
      let free = any-marks b at.row.state_seq l.checkpoints at.marks (omega (arith, at.seq)) in
      let mark : CheckpointRow = record {
        mission_id = m;
        state_seq = at.row.state_seq;
        snapshot_json = snapshot;
        created_at = t;
      } in
      let l' : Ledger = record l { checkpoints = l.checkpoints ++ mark ∷ [] } in
      let done : checkpoint m snapshot t l ≡ ok l' = rw (checkpoint, at.known, free) refl in
      (
        l',
        done,
        record {
          sound = checkpoint-IsSound sha256 m snapshot t l l' at.sound done;
          row = at.row;
          known = at.known;
          state = at.state;
          seq = at.seq;
          marks =
              All-snoc (λ (c : CheckpointRow). c.state_seq < suc n) l.checkpoints
                (All-weaken (λ c below. omega arith) l.checkpoints at.marks)
                (omega (arith, at.seq));
        },
      )

  pub emit_events-IsAt :
      (events : List (Text × Text)) {s next : State} {n b : ℕ} {l : Ledger}
      → IsAt s n b l
      → reduce_all s (map (λ e. event_of_text e.0) events) ≡ ok next
      → (l' : Ledger) × (emit_events sha256 m events l ≡ ok l') × IsAt next (length events + n) b l'
  unfolding emit_events reduce_all
  emit_events-IsAt [] {s} {next} {n} {b} {l} at h = (
    l,
    refl,
    subst (λ k. IsAt next k b l) (omega arith) (subst (λ z. IsAt z n b l) (ok_injective h) at),
  )
  emit_events-IsAt ((e, t) ∷ events) {s} {next} {n} {b} {l} at h =
      let (reached, step, rest) =
        >>=-eq-ok (reduce_state s (event_of_text e))
          (λ z. reduce_all z (map (λ x. event_of_text x.0) events)) h in
      let (l1, emitted, at1) = emit_event-IsAt e t at step in
      let (l2, done, at2) = emit_events-IsAt events at1 rest in
      (l2, rw emitted done, subst (λ k. IsAt next k b l2) (omega arith) at2)
