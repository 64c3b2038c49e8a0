-- ===== src/Kernel/Ledger/Invariant.antt =====
-- The invariant of the ledger's database, for the operations of kernel/ledger.py: how the events of
-- a mission, its row and the chain of their hashes are related.
use mathlib.Core.Path.{subst}
use mathlib.Core.List.{map-append}
use native.Mathlib.Numerals.{add-one}
use second_brain_coordinatio.Prelude.{
  ◌+◌, Text, text_eq, text_eq_iff, ◌≡◌, refl, sym, true, false, Option, none, some, List, [], ◌∷◌,
  ◌++◌, Result, ok, err, ◌>>=◌, >>=-eq-ok, select, map, arith, Bool-cases, inl, inr, lookup, insert,
  lookup-insert, lookup-nil, Option-cases, append-nil, ◌⊎◌, if◌then◌else◌, Result-cases, ◌≢◌,
}
use second_brain_coordinatio.Kernel.Schemas
use second_brain_coordinatio.Kernel.Schemas.{State, active, event_of_text}
use second_brain_coordinatio.Kernel.Reducers.{reduce_state}
use second_brain_coordinatio.Kernel.Canonical.Json.{Value}
use second_brain_coordinatio.Kernel.Verifier.{EventRecord, build_genesis_event}
use second_brain_coordinatio.Kernel.Ledger.{create_mission, next_event, append_event}
use second_brain_coordinatio.Kernel.Tables.{
  Ledger, empty, Mission, EventRow, LedgerError, row_of, of_mission, rows_of, head_hash_locked,
  append_event_locked, checkpoint,
}
use second_brain_coordinatio.Kernel.Ledger.Rows.{select-append, sort_rows-NumberedFrom}
use second_brain_coordinatio.Kernel.Ledger.Chain.{IsChain, IsChain-genesis, IsChain-append, head_of}

-- A call of a method that writes.
pub data Op : Type 0 where
  create : (mission_id run_id timestamp_iso actor : Text) → Op
  append : (mission_id event_type actor timestamp_iso : Text) (payload digests : Value) → Op
  mark : (mission_id : Text) (snapshot : Value) (timestamp_iso : Text) → Op

abbrev pub after : Ledger → Result LedgerError Ledger → Ledger
after l (ok l') = l'
after l (err _) = l

module _ (sha256 : Text → Text) where
  unfoldable pub perform : Op → Ledger → Result LedgerError Ledger
  perform (create m r t a) l = create_mission sha256 m r t a l
  perform (append m e a t p d) l = do r ← append_event sha256 m e a t p d l; ok r.1
  perform (mark m s t) l = checkpoint m s t l

  -- A sequence of calls, where one that raises changes nothing.
  unfoldable pub run : List Op → Ledger → Ledger
  unfolding perform
  run [] l = l
  run (op ∷ ops) l = run ops (after l (perform op l))

  abbrev pub Holds : List EventRow → Option Mission → Type 0
  Holds rows none = rows ≡ []
  Holds rows (some m) =
      (es : List EventRecord) × (rows ≡ map row_of es) × IsChain sha256 es m.state m.state_seq

  pub record IsSound (l : Ledger) : Type 0 where
    pub at : (m : Text) → Holds (select (of_mission m) l.events) (lookup m l.missions)

  pub empty-IsSound : IsSound empty
  empty-IsSound = record { at = λ m. rw (lookup-nil {V = Mission} m) refl }

  select-row_of :
      (j : Text) (e : EventRecord)
      → select (of_mission j) (row_of e ∷ [])
        ≡ (if text_eq e.mission_id j then row_of e ∷ [] else [])
  unfolding row_of
  select-row_of j e = refl

  -- One more event of its mission, with the row of the mission to match.
  extend-IsSound :
      (l : Ledger) (row : Mission) (e : EventRecord) (es : List EventRecord)
      → IsSound l
      → select (of_mission e.mission_id) l.events ≡ map row_of es
      → IsChain sha256 (es ++ e ∷ []) row.state row.state_seq
      → IsSound (record l {
        missions = insert e.mission_id row l.missions;
        events = l.events ++ row_of e ∷ [];
      })
  extend-IsSound l row e es s rows c = record {
    at = λ j.
        rw
          (
            lookup-insert e.mission_id j row l.missions,
            select-append (of_mission j) l.events (row_of e ∷ []),
            select-row_of j e,
          )
          (by_name j (Bool-cases (text_eq e.mission_id j)));
  }
    where
      own : Holds (select (of_mission e.mission_id) l.events ++ row_of e ∷ []) (some row)
      own = (es ++ e ∷ [], rw rows (sym (map-append row_of es (e ∷ []))), c)

      by_name :
          (j : Text)
          → (text_eq e.mission_id j ≡ true) ⊎ (text_eq e.mission_id j ≡ false)
          → Holds
              (select (of_mission j) l.events
                ++ (if text_eq e.mission_id j then row_of e ∷ [] else []))
              (if text_eq e.mission_id j then some row else lookup j l.missions)
      by_name j (inl same) = rw same (
          subst (λ k. Holds (select (of_mission k) l.events ++ row_of e ∷ []) (some row))
            ((text_eq_iff e.mission_id j).0 same) own)
      by_name j (inr differs) = rw (differs, append-nil (select (of_mission j) l.events)) (s.at j)

  append_event_locked-eq_ok :
      (e : EventRecord) (l l' : Ledger)
      → append_event_locked e l ≡ ok l'
      → l' ≡ record l { events = l.events ++ row_of e ∷ [] }
  unfolding append_event_locked
  append_event_locked-eq_ok e l l' h = ground arith

  pub create_mission-IsSound :
      (m r t a : Text) (l l' : Ledger)
      → IsSound l
      → create_mission sha256 m r t a l ≡ ok l'
      → IsSound l'
  unfolding create_mission build_genesis_event
  create_mission-IsSound m r t a l l' s h = elim (Option-cases (lookup m l.missions)) [
    | inr (row, known) ↦ ground arith
    | inl new ↦
        rw
          (append_event_locked-eq_ok (build_genesis_event sha256 m r a t)
            (record l {
              missions =
                  insert m
                    (record {
                      run_id = r;
                      state = active Schemas.MissionState.created;
                      state_seq = 0;
                      created_at = t;
                      updated_at = t;
                    })
                    l.missions;
            })
            l' (rw new at h))
          (extend-IsSound l
            (record {
              run_id = r;
              state = active Schemas.MissionState.created;
              state_seq = 0;
              created_at = t;
              updated_at = t;
            })
            (build_genesis_event sha256 m r a t) [] s (rw new at (s.at m))
            (IsChain-genesis sha256 (build_genesis_event sha256 m r a t) refl refl refl refl))
  ]

  head_of-rows :
      (m : Text) (l : Ledger) (row : Mission) (es : List EventRecord)
      → select (of_mission m) l.events ≡ map row_of es
      → IsChain sha256 es row.state row.state_seq
      → head_hash_locked m l ≡ head_of sha256 es
  unfolding head_hash_locked rows_of
  head_of-rows m l row es rows c = rw (rows, sort_rows-NumberedFrom 0 es c.numbered) refl

  -- The event that `append_event` adds, and the tables that it leaves.
  pub append_event-eq_ok :
      (m e a t : Text) (p d : Value) (l l' : Ledger) (row : Mission) (ev : EventRecord)
      → lookup m l.missions ≡ some row
      → append_event sha256 m e a t p d l ≡ ok (ev, l')
      → (next : State) × (reduce_state row.state (event_of_text e) ≡ ok next)
        × (ev ≡ next_event sha256 m row e a t p d (head_hash_locked m l))
        × (l' ≡ record l {
          missions =
              insert m
                (record row { state = next; state_seq = row.state_seq + 1; updated_at = t })
                l.missions;
          events = l.events ++ row_of ev ∷ [];
        })
  unfolding append_event append_event_locked
  append_event-eq_ok m e a t p d l l' row ev known h =
      elim (Result-cases (reduce_state row.state (event_of_text e))) [
        | inl (next, step) ↦ (next, step, ground arith, ground arith)
        | inr (problem, step) ↦ ground arith
      ]

  pub append_event-unknown :
      (m e a t : Text) (p d : Value) (l : Ledger) (r : EventRecord × Ledger)
      → lookup m l.missions ≡ none
      → append_event sha256 m e a t p d l ≢ ok r
  unfolding append_event
  append_event-unknown m e a t p d l r unknown h = ground arith

  next_event-IsSound :
      (m e a t : Text) (p d : Value) (l : Ledger) (row : Mission) (next : State)
      → IsSound l
      → lookup m l.missions ≡ some row
      → reduce_state row.state (event_of_text e) ≡ ok next
      → IsSound (record l {
        missions =
            insert m
              (record row { state = next; state_seq = row.state_seq + 1; updated_at = t })
              l.missions;
        events = l.events ++ row_of (next_event sha256 m row e a t p d (head_hash_locked m l)) ∷ [];
      })
  unfolding next_event
  next_event-IsSound m e a t p d l row next s known step =
      let held : Holds (select (of_mission m) l.events) (some row) = rw known at (s.at m) in
      let (es, rows, c) = held in
      extend-IsSound l (record row { state = next; state_seq = row.state_seq + 1; updated_at = t })
        (next_event sha256 m row e a t p d (head_hash_locked m l)) es s rows
        (subst
          (IsChain sha256 (es ++ next_event sha256 m row e a t p d (head_hash_locked m l) ∷ [])
            next)
          (sym (add-one row.state_seq))
          (IsChain-append sha256 es (next_event sha256 m row e a t p d (head_hash_locked m l))
            row.state next row.state_seq c (omega arith) (head_of-rows m l row es rows c)
            (rw (head_of-rows m l row es rows c) refl) step))

  pub append_event-IsSound :
      (m e a t : Text) (p d : Value) (l : Ledger) (r : EventRecord × Ledger)
      → IsSound l
      → append_event sha256 m e a t p d l ≡ ok r
      → IsSound r.1
  append_event-IsSound m e a t p d l (ev, l') s h = elim (Option-cases (lookup m l.missions)) [
    | inl unknown ↦ absurd (append_event-unknown m e a t p d l (ev, l') unknown h)
    | inr (row, known) ↦
        let (next, step, is_next, left) = append_event-eq_ok m e a t p d l l' row ev known h in
        rw (left, is_next) (next_event-IsSound m e a t p d l row next s known step)
  ]

  pub checkpoint-IsSound :
      (m : Text) (snapshot : Value) (t : Text) (l l' : Ledger)
      → IsSound l
      → checkpoint m snapshot t l ≡ ok l'
      → IsSound l'
  unfolding checkpoint
  checkpoint-IsSound m snapshot t l l' s h = record { at = λ j. rw (same.0, same.1) (s.at j) }
    where
      same : (l'.events ≡ l.events) × (l'.missions ≡ l.missions)
      same = ground arith

  perform-IsSound : (op : Op) (l l' : Ledger) → IsSound l → perform op l ≡ ok l' → IsSound l'
  unfolding perform
  perform-IsSound (create m r t a) l l' s h = create_mission-IsSound m r t a l l' s h
  perform-IsSound (append m e a t p d) l l' s h =
      let (r, done, last_step) = >>=-eq-ok (append_event sha256 m e a t p d l) (λ r. ok r.1) h in
      subst IsSound (cc) (append_event-IsSound m e a t p d l r s done)
  perform-IsSound (mark m x t) l l' s h = checkpoint-IsSound m x t l l' s h

  after-IsSound :
      (l : Ledger) (r : Result LedgerError Ledger)
      → IsSound l
      → ((l' : Ledger) → r ≡ ok l' → IsSound l')
      → IsSound (after l r)
  after-IsSound l (ok l') s keep = keep l' refl
  after-IsSound l (err e) s keep = s

  -- Whatever is called, the tables stay sound.
  pub run-IsSound : (ops : List Op) (l : Ledger) → IsSound l → IsSound (run ops l)
  unfolding run
  run-IsSound [] l s = s
  run-IsSound (op ∷ ops) l s =
      run-IsSound ops (after l (perform op l))
        (after-IsSound l (perform op l) s (λ l' h. perform-IsSound op l l' s h))
