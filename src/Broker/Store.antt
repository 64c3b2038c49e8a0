-- ===== src/Broker/Store.antt =====
-- tools/host_execution_broker/broker.py: the tables, the clock, events, and the expiry of leases.
-- `clock n` is the reading number `n` of the clock within one call.
pub mod Expiry
mod Tests
use second_brain_coordinatio.Prelude.{
  ℕ, zero, suc, ◌+◌, Text, codes, text_eq, mem_text, Bool, true, false, not, ◌&&◌, ◌||◌, Option,
  none, some, List, [], ◌∷◌, ◌++◌, map, ltb, leb, ◌==◌, any, select, if◌then◌else◌,
}
use second_brain_coordinatio.Kernel.Canonical.Json.{Value, Fields, end, obj}
use second_brain_coordinatio.Broker.Dumps.{dumps}
use second_brain_coordinatio.Broker.Models.{
  ResourceMode, ResourceType, same_type, ResourceClaim, ExecutionRequest, AuthorityState,
}
use second_brain_coordinatio.Broker.Process.{ProcessStartReceipt}

pub data ExecutionStatus : Type 0 where
  admitted running checkpointing resuming terminal fenced : ExecutionStatus

-- `status in ACTIVE_EXECUTION_STATES`
abbrev pub is_active_execution : ExecutionStatus → Bool
is_active_execution ExecutionStatus.admitted = true
is_active_execution ExecutionStatus.running = true
is_active_execution ExecutionStatus.checkpointing = true
is_active_execution ExecutionStatus.resuming = true
is_active_execution ExecutionStatus.terminal = false
is_active_execution ExecutionStatus.fenced = false

pub data RowStatus : Type 0 where
  active fenced released : RowStatus

-- `status = 'ACTIVE'`
abbrev pub is_active_status : RowStatus → Bool
is_active_status RowStatus.active = true
is_active_status RowStatus.fenced = false
is_active_status RowStatus.released = false

-- A row of `executions`; the columns that repeat the request are those of `request`.
pub record ExecutionRow : Type 0 where
  pub execution_id : Text
  pub idempotency_key : Text
  pub request : ExecutionRequest
  pub broker_key : Text
  pub status : ExecutionStatus
  pub created_at_ms : ℕ
  pub updated_at_ms : ℕ
  pub terminal_state : Option Text

-- A row of `resource_leases`.
pub record LeaseRow : Type 0 where
  pub lease_id : Text
  pub execution_id : Text
  pub resource_type : ResourceType
  pub resource_id : Text
  pub mode : ResourceMode
  pub units : ℕ
  pub generation : ℕ
  pub fencing_token : Text
  pub status : RowStatus
  pub acquired_at_ms : ℕ
  pub expires_at_ms : ℕ
  pub released_at_ms : Option ℕ

-- A row of `process_receipts`; its payload is the dump of `receipt`.
pub record ReceiptRow : Type 0 where
  pub receipt_id : Text
  pub execution_id : Text
  pub receipt : ProcessStartReceipt
  pub created_at_ms : ℕ

-- A row of `events`; `seq` is its place in the list.
pub record EventRow : Type 0 where
  pub execution_id : Option Text
  pub event_type : Text
  pub payload_json : Text
  pub created_at_ms : ℕ

pub record Database : Type 0 where
  pub executions : List ExecutionRow
  pub resource_leases : List LeaseRow
  pub process_receipts : List ReceiptRow
  pub events : List EventRow

unfoldable pub empty_database : Database
empty_database = record {
  executions = [];
  resource_leases = [];
  process_receipts = [];
  events = [];
}

-- A transaction: the tables, and how often the clock has been read.
pub record Connection : Type 0 where
  pub db : Database
  pub reads : ℕ

-- `SELECT DISTINCT`
unfoldable pub distinct : List Text → List Text
distinct [] = []
distinct (t ∷ ts) = let rest = distinct ts in if mem_text t rest then rest else t ∷ rest

abbrev pub is_stale : ℕ → LeaseRow → Bool
is_stale now r = is_active_status r.status && leb r.expires_at_ms now

-- The executions with a lease that has run out.
unfoldable pub expired_executions : ℕ → List LeaseRow → List Text
unfolding distinct
expired_executions now rows = distinct (map LeaseRow.execution_id (select (is_stale now) rows))

-- `UPDATE resource_leases SET status='FENCED' ...` on one row
unfoldable pub fence_row : ℕ → List Text → LeaseRow → LeaseRow
fence_row now ids r =
    if is_active_status r.status && mem_text r.execution_id ids
    then record r { status = RowStatus.fenced; released_at_ms = some now }
    else r

abbrev pub is_open_execution : Text → ExecutionRow → Bool
is_open_execution id r = text_eq r.execution_id id && is_active_execution r.status

-- `UPDATE executions SET status='FENCED' ...` on one row
unfoldable pub fence_execution : ℕ → Text → ExecutionRow → ExecutionRow
fence_execution now id r =
    if is_open_execution id r
    then record r {
      status = ExecutionStatus.fenced;
      terminal_state = some (codes "LEASE_EXPIRED");
      updated_at_ms = now;
    }
    else r

module _ (clock : ℕ → ℕ) where
  -- `_event`
  unfoldable pub add_event : Option Text → Text → Fields → Connection → Connection
  unfolding dumps
  add_event execution_id event_type payload con = record {
    db = record con.db {
      events =
          con.db.events
          ++ record {
            execution_id = execution_id;
            event_type = event_type;
            payload_json = dumps (codes ", ") (codes ": ") (obj payload);
            created_at_ms = clock con.reads;
          }
            ∷ [];
    };
    reads = con.reads + 1;
  }

  -- One round of the loop over the executions.
  unfoldable pub fence_one : ℕ → Text → Connection → Connection
  unfolding fence_execution add_event
  fence_one now id con =
      let fenced = record con {
        db = record con.db { executions = map (fence_execution now id) con.db.executions };
      } in
      if any (is_open_execution id) con.db.executions
      then add_event (some id) (codes "LEASES_EXPIRED_AND_FENCED") end fenced
      else fenced

  unfoldable pub fence_executions : ℕ → List Text → Connection → Connection
  unfolding fence_one
  fence_executions now [] con = con
  fence_executions now (id ∷ ids) con = fence_executions now ids (fence_one now id con)

  -- `_expire_stale_leases`
  unfoldable pub expire_stale_leases : Connection → Connection
  unfolding expired_executions fence_row fence_executions
  expire_stale_leases con =
      let now = clock con.reads in
      let ids = expired_executions now con.db.resource_leases in
      fence_executions now ids (record {
        db = record con.db { resource_leases = map (fence_row now ids) con.db.resource_leases };
        reads = con.reads + 1;
      })
