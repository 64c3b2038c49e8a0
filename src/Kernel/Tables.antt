-- ===== src/Kernel/Tables.antt =====
-- tools/durable_mission_kernel/ledger.py: the tables, the stored form of an event, and the queries
-- and updates of `MissionLedger` that need no hash.
use second_brain_coordinatio.Prelude.{
  ℕ, Text, codes, text_eq, Bool, ◌&&◌, Option, none, some, List, [], ◌∷◌, ◌++◌, Result, ok, err,
  ◌>>=◌, ◌>>◌, raise_if, Dict, lookup, any, select, last, ◌==◌, leb, if◌then◌else◌,
}
use second_brain_coordinatio.Prelude.Int.{pos}
use second_brain_coordinatio.Kernel.Schemas.{State}
use second_brain_coordinatio.Kernel.Reducers.{ReducerError}
use second_brain_coordinatio.Kernel.Canonical.{event_hash, genesis_previous_hash}
use second_brain_coordinatio.Kernel.Canonical.Json.{
  Value, str, int, obj, Fields, end, field, jcs_dumps,
}
use second_brain_coordinatio.Kernel.Canonical.Loads.{loads}
use second_brain_coordinatio.Kernel.Verifier.{EventRecord, ChainError}

-- A row of the table `missions`.
pub record Mission : Type 0 where
  pub run_id : Text
  pub state : State
  pub state_seq : ℕ
  pub created_at : Text
  pub updated_at : Text

-- A row of the table `events`; the columns `payload_json` and `digests_json`, which nothing reads,
-- are shown by the values that their texts stand for.
pub record EventRow : Type 0 where
  pub mission_id : Text
  pub state_seq : ℕ
  pub event_type : Text
  pub previous_event_hash : Text
  pub event_hash : Text
  pub canonical_bytes : Text
  pub actor : Text
  pub timestamp_iso : Text
  pub payload_json : Value
  pub digests_json : Value

-- A row of the table `checkpoints`; so for `snapshot_json`.
pub record CheckpointRow : Type 0 where
  pub mission_id : Text
  pub state_seq : ℕ
  pub snapshot_json : Value
  pub created_at : Text

-- The tables that the methods use.
pub record Ledger : Type 0 where
  pub missions : Dict Mission
  pub events : List EventRow
  pub checkpoints : List CheckpointRow

abbrev pub empty : Ledger
empty = record { missions = []; events = []; checkpoints = [] }

-- `LedgerError`, the error of a primary key, and those of the modules that are called. A stored
-- text that is no event is `unreadable`; `crashed_chain` is what endurance.py raises.
pub data LedgerError : Type 0 where
  mission_exists unknown_mission : Text → LedgerError
  illegal : ReducerError → LedgerError
  chain : ChainError → LedgerError
  primary_key unreadable crashed_chain : LedgerError

abbrev pub lift_reducer : {A : Type 0} → Result ReducerError A → Result LedgerError A
lift_reducer (ok a) = ok a
lift_reducer (err e) = err (illegal e)

abbrev pub lift_chain : {A : Type 0} → Result ChainError A → Result LedgerError A
lift_chain (ok a) = ok a
lift_chain (err e) = err (chain e)

abbrev pub or_unknown : Text → Option Mission → Result LedgerError Mission
or_unknown m none = err (unknown_mission m)
or_unknown m (some row) = ok row

-- The dict of an event as a JSON value, in the order in which it is built.
unfoldable pub event_json : EventRecord → Value
event_json e = obj (
    field (codes "mission_id") (str e.mission_id) (
      field (codes "run_id") (str e.run_id) (
        field (codes "state_seq") (int (pos e.state_seq)) (
          field (codes "event_type") (str e.event_type) (
            field (codes "previous_event_hash") (str e.previous_event_hash) (
              field (codes "event_hash") (str e.event_hash) (
                field (codes "actor") (str e.actor) (
                  field (codes "timestamp_iso") (str e.timestamp_iso) (
                    field (codes "payload") e.payload
                      (field (codes "digests") e.digests end))))))))))

-- `d[key]`; the last of two fields with one key counts.
unfoldable pub get_field : Text → Fields → Option Value
get_field k end = none
get_field k (field j v fs) = elim (get_field k fs) [
  | some w ↦ some w
  | none ↦ if text_eq j k then some v else none
]

abbrev pub as_text : Option Value → Result LedgerError Text
as_text (some (str s)) = ok s
as_text _ = err unreadable

abbrev pub as_nat : Option Value → Result LedgerError ℕ
as_nat (some (int (pos n))) = ok n
as_nat _ = err unreadable

abbrev pub as_value : Option Value → Result LedgerError Value
as_value (some v) = ok v
as_value none = err unreadable

unfoldable pub event_of_fields : Fields → Result LedgerError EventRecord
event_of_fields fs = do
  mission_id ← as_text (get_field (codes "mission_id") fs)
  run_id ← as_text (get_field (codes "run_id") fs)
  state_seq ← as_nat (get_field (codes "state_seq") fs)
  event_type ← as_text (get_field (codes "event_type") fs)
  previous_event_hash ← as_text (get_field (codes "previous_event_hash") fs)
  event_hash ← as_text (get_field (codes "event_hash") fs)
  actor ← as_text (get_field (codes "actor") fs)
  timestamp_iso ← as_text (get_field (codes "timestamp_iso") fs)
  payload ← as_value (get_field (codes "payload") fs)
  digests ← as_value (get_field (codes "digests") fs)
  ok (record {
    mission_id = mission_id;
    run_id = run_id;
    state_seq = state_seq;
    event_type = event_type;
    previous_event_hash = previous_event_hash;
    event_hash = event_hash;
    actor = actor;
    timestamp_iso = timestamp_iso;
    payload = payload;
    digests = digests;
  })

-- `json.loads` of a stored text, as an event.
unfoldable pub event_of_json : Option Value → Result LedgerError EventRecord
unfolding event_of_fields get_field
event_of_json (some (obj fs)) = event_of_fields fs
event_of_json _ = err unreadable

-- `_append_event_locked`: the row of an event.
unfoldable pub row_of : EventRecord → EventRow
row_of e = record {
  mission_id = e.mission_id;
  state_seq = e.state_seq;
  event_type = e.event_type;
  previous_event_hash = e.previous_event_hash;
  event_hash = e.event_hash;
  canonical_bytes = jcs_dumps (event_json e);
  actor = e.actor;
  timestamp_iso = e.timestamp_iso;
  payload_json = e.payload;
  digests_json = e.digests;
}

abbrev pub same_key : Text → ℕ → EventRow → Bool
same_key m n r = text_eq r.mission_id m && (r.state_seq == n)

-- `INSERT INTO events`, whose primary key is the mission and the sequence number.
unfoldable pub append_event_locked : EventRecord → Ledger → Result LedgerError Ledger
unfolding row_of
append_event_locked e l = do
  raise_if (any (same_key e.mission_id e.state_seq) l.events) primary_key
  ok (record l { events = l.events ++ row_of e ∷ [] })

unfoldable pub insert_row : EventRow → List EventRow → List EventRow
insert_row r [] = r ∷ []
insert_row r (q ∷ l) = if leb r.state_seq q.state_seq then r ∷ q ∷ l else q ∷ insert_row r l

-- `ORDER BY state_seq`
unfoldable pub sort_rows : List EventRow → List EventRow
unfolding insert_row
sort_rows [] = []
sort_rows (r ∷ l) = insert_row r (sort_rows l)

abbrev pub of_mission : Text → EventRow → Bool
of_mission m r = text_eq r.mission_id m

-- `SELECT ... FROM events WHERE mission_id=? ORDER BY state_seq`
unfoldable pub rows_of : Text → Ledger → List EventRow
unfolding sort_rows
rows_of m l = sort_rows (select (of_mission m) l.events)

abbrev pub hash_or_genesis : Option EventRow → Text
hash_or_genesis none = genesis_previous_hash
hash_or_genesis (some r) = r.event_hash

-- `_head_hash_locked`: the row with the greatest sequence number
unfoldable pub head_hash_locked : Text → Ledger → Text
unfolding rows_of
head_hash_locked m l = hash_or_genesis (last (rows_of m l))

unfoldable pub read_rows : List EventRow → Result LedgerError (List EventRecord)
unfolding event_of_json
read_rows [] = ok []
read_rows (r ∷ rs) = do e ← event_of_json (loads r.canonical_bytes); es ← read_rows rs; ok (e ∷ es)

unfoldable pub read_events : Text → Ledger → Result LedgerError (List EventRecord)
unfolding read_rows rows_of
read_events m l = read_rows (rows_of m l)

unfoldable pub current_state : Text → Ledger → Result LedgerError State
current_state m l = do row ← or_unknown m (lookup m l.missions); ok row.state

unfoldable pub current_state_seq : Text → Ledger → Result LedgerError ℕ
current_state_seq m l = do row ← or_unknown m (lookup m l.missions); ok row.state_seq

abbrev pub same_checkpoint : Text → ℕ → CheckpointRow → Bool
same_checkpoint m n c = text_eq c.mission_id m && (c.state_seq == n)

unfoldable pub checkpoint : Text → Value → Text → Ledger → Result LedgerError Ledger
checkpoint m snapshot timestamp_iso l = do
  row ← or_unknown m (lookup m l.missions)
  raise_if (any (same_checkpoint m row.state_seq) l.checkpoints) primary_key
  ok (record l {
    checkpoints =
        l.checkpoints
        ++ record {
          mission_id = m;
          state_seq = row.state_seq;
          snapshot_json = snapshot;
          created_at = timestamp_iso;
        }
          ∷ [];
  })
