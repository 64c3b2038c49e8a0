-- ===== src/Broker/Lifecycle.antt =====
-- tools/host_execution_broker/broker.py: `renew`, `assert_effect_authorized`, `release`
-- and `bind_process_start`. An error stands for a transaction that was rolled back.
mod Fencing
mod Tests
use second_brain_coordinatio.Prelude.{
  ℕ, zero, suc, ◌+◌, Text, codes, text_eq, Bool, true, false, not, ◌&&◌, ◌||◌, Option, none, some,
  List, [], ◌∷◌, ◌++◌, map, Result, ok, err, ◌>>=◌, ◌>>◌, raise_if, ltb, leb, ◌==◌, any, select,
  length, if◌then◌else◌,
}
use second_brain_coordinatio.Prelude.Int.{ℤ, pos}
use second_brain_coordinatio.Kernel.Canonical.Json.{Value, int, str, Fields, end, field}
use second_brain_coordinatio.Broker.Dumps.{dumps}
use second_brain_coordinatio.Broker.Models.{ResourceType, same_type}
use second_brain_coordinatio.Broker.Request.{prefix}
use second_brain_coordinatio.Broker.Process.{
  WorkerIdentity, ProcessStartReceipt, receipt_value, same_start, int_eq,
}
use second_brain_coordinatio.Broker.Store.{
  ExecutionStatus, is_active_execution, is_open_execution, RowStatus, is_active_status,
  ExecutionRow, LeaseRow, ReceiptRow, EventRow, Database, Connection, add_event,
  expire_stale_leases,
}
use second_brain_coordinatio.Broker.Rules.{
  BrokerError, integrity_error, lease_not_active, lease_mismatch, newer_generation,
  execution_not_active, execution_inactive, worker_mismatch, worker_lease_inactive,
  worker_lease_mismatch, bound_elsewhere, HostExecutionBroker, LeaseBinding, find, max_generation,
}

abbrev pub has_lease_id : Text → LeaseRow → Bool
has_lease_id id r = text_eq r.lease_id id

-- The row of a lease id, or the error if there is none that is active.
unfoldable pub active_row : BrokerError → Text → List LeaseRow → Result BrokerError LeaseRow
unfolding find
active_row e id rows = elim (find (has_lease_id id) rows) [
  | none ↦ err e
  | some r ↦ (if is_active_status r.status then ok r else err e)
]

-- `UPDATE resource_leases SET expires_at_ms=? ...` on one row
unfoldable pub extend_row : Text → ℕ → LeaseRow → LeaseRow
extend_row id at r = if has_lease_id id r then record r { expires_at_ms = at } else r

-- `UPDATE resource_leases SET status='RELEASED' ...` on one row
unfoldable pub release_row : Text → ℕ → LeaseRow → LeaseRow
release_row execution_id now r =
    if text_eq r.execution_id execution_id && is_active_status r.status
    then record r { status = RowStatus.released; released_at_ms = some now }
    else r

-- `UPDATE executions SET status='TERMINAL' ...` on one row
unfoldable pub close_execution : Text → Text → ℕ → ExecutionRow → ExecutionRow
close_execution execution_id terminal_state now r =
    if is_open_execution execution_id r
    then record r {
      status = ExecutionStatus.terminal;
      terminal_state = some terminal_state;
      updated_at_ms = now;
    }
    else r

-- `UPDATE executions SET status='RUNNING' ...` on one row
unfoldable pub start_execution : Text → ℕ → ExecutionRow → ExecutionRow
start_execution execution_id now r =
    if text_eq r.execution_id execution_id
    then record r { status = ExecutionStatus.running; updated_at_ms = now }
    else r

-- `ORDER BY created_at_ms LIMIT 1`
unfoldable pub oldest : List ReceiptRow → Option ReceiptRow
oldest [] = none
oldest (r ∷ rs) = elim (oldest rs) [
  | none ↦ some r
  | some s ↦ (if ltb s.created_at_ms r.created_at_ms then some s else some r)
]

module _ (clock : ℕ → ℕ) where
  unfoldable pub renew :
      HostExecutionBroker
      → LeaseBinding
      → Connection
      → Result BrokerError (LeaseBinding × Connection)
  unfolding expire_stale_leases active_row extend_row add_event
  renew broker binding con =
      let con1 = expire_stale_leases clock con in
      let expires_at = clock con1.reads + broker.lease_ttl_ms in
      do
        row ← active_row lease_not_active binding.lease_id con1.db.resource_leases
        raise_if
            (not (row.generation == binding.generation)
              || not (text_eq row.fencing_token binding.fencing_token))
            lease_mismatch
        ok (
          record binding { expires_at_ms = expires_at; state = RowStatus.active },
          add_event clock (some binding.execution_id) (codes "LEASE_RENEWED")
              (field (codes "lease_id") (str binding.lease_id)
                (field (codes "expires_at_ms") (int (pos expires_at)) end))
              (record {
                db = record con1.db {
                  resource_leases =
                      map (extend_row binding.lease_id expires_at) con1.db.resource_leases;
                };
                reads = con1.reads + 1;
              }),
        )

  unfoldable pub assert_effect_authorized :
      LeaseBinding → Connection → Result BrokerError Connection
  unfolding expire_stale_leases active_row max_generation
  assert_effect_authorized binding con =
      let con1 = expire_stale_leases clock con in
      do
        row ← active_row lease_not_active binding.lease_id con1.db.resource_leases
        raise_if
            (not (text_eq row.execution_id binding.execution_id)
              || not (row.generation == binding.generation)
              || not (text_eq row.fencing_token binding.fencing_token))
            lease_mismatch
        raise_if
            (not (
              max_generation binding.resource_type binding.resource_id con1.db.resource_leases
              == binding.generation))
            newer_generation
        ok con1

  unfoldable pub release : Text → Text → Connection → Result BrokerError Connection
  unfolding release_row close_execution add_event
  release execution_id terminal_state con =
      let now = clock con.reads in
      do
        raise_if (not (length (select (is_open_execution execution_id) con.db.executions) == 1))
            execution_not_active
        ok (
            add_event clock (some execution_id) (codes "EXECUTION_RELEASED")
              (field (codes "terminal_state") (str terminal_state) end)
              (record {
                db = record con.db {
                  executions =
                      map (close_execution execution_id terminal_state now) con.db.executions;
                  resource_leases = map (release_row execution_id now) con.db.resource_leases;
                };
                reads = con.reads + 1;
              }))

  -- The row of an execution, if it is active.
  abbrev pub open_row : Text → List ExecutionRow → Result BrokerError ExecutionRow
  open_row id rows = elim (find (λ r. text_eq r.execution_id id) rows) [
    | none ↦ err execution_inactive
    | some r ↦ (if is_active_execution r.status then ok r else err execution_inactive)
  ]

  -- The receipt that `bind_process_start` builds.
  unfoldable pub receipt_of : Text → ExecutionRow → WorkerIdentity → ℕ → ProcessStartReceipt
  receipt_of execution_id e worker now = record {
    schema = codes "PROCESS_START_RECEIPT/v1-candidate";
    execution_id = execution_id;
    broker_key = e.broker_key;
    task_id = e.request.task_id;
    route_epoch = e.request.route_epoch;
    role = e.request.role;
    branch = e.request.branch;
    worktree = e.request.worktree;
    collision_domain = e.request.collision_domain;
    carrier = e.request.carrier;
    model = e.request.model;
    canonical_main_sha = e.request.canonical_main_sha;
    worker = worker;
    issued_at_ms = now;
  }

  -- The inserts at the end of `bind_process_start`.
  unfoldable pub store_receipt :
      (Text → Text) → Text → ProcessStartReceipt → Connection → Result BrokerError Connection
  unfolding receipt_value dumps prefix start_execution add_event
  store_receipt sha256 execution_id receipt con = do
    let receipt_id =
        codes "PSR-" ++ prefix 24 (sha256 (dumps (codes ", ") (codes ": ") (receipt_value receipt)))
    raise_if (any (λ r. text_eq r.receipt_id receipt_id) con.db.process_receipts) integrity_error
    ok (
        add_event clock (some execution_id) (codes "PROCESS_START_RECEIPT")
          (field (codes "receipt_id") (str receipt_id) end)
          (record con {
            db = record con.db {
              process_receipts =
                  con.db.process_receipts
                  ++ record {
                    receipt_id = receipt_id;
                    execution_id = execution_id;
                    receipt = receipt;
                    created_at_ms = receipt.issued_at_ms;
                  }
                    ∷ [];
              executions =
                  map (start_execution execution_id receipt.issued_at_ms) con.db.executions;
            };
          }))

  -- The active row of the lease that a worker names.
  abbrev pub worker_lease : Text → WorkerIdentity → List LeaseRow → Result BrokerError LeaseRow
  worker_lease execution_id worker rows =
      elim (find
        (λ r.
          has_lease_id worker.execution_lease_id r
          && text_eq r.execution_id execution_id
          && is_active_status r.status)
        rows) [ none ↦ err worker_lease_inactive | some r ↦ ok r ]

  -- The end of `bind_process_start`, where the receipt is compared or stored.
  unfoldable pub settle_receipt :
      (Text → Text)
      → Text
      → ProcessStartReceipt
      → Connection
      → Result BrokerError (ProcessStartReceipt × Connection)
  unfolding oldest same_start store_receipt
  settle_receipt sha256 execution_id receipt con =
      elim (oldest (select (λ r. text_eq r.execution_id execution_id) con.db.process_receipts)) [
        | some prior ↦ (do
          raise_if (not (same_start prior.receipt receipt)) bound_elsewhere
          ok (receipt, con))
        | none ↦ (do stored ← store_receipt sha256 execution_id receipt con; ok (receipt, stored))
      ]

  unfoldable pub bind_process_start :
      (Text → Text)
      → Text
      → WorkerIdentity
      → Connection
      → Result BrokerError (ProcessStartReceipt × Connection)
  unfolding expire_stale_leases find receipt_of settle_receipt
  bind_process_start sha256 execution_id worker con =
      let con1 = expire_stale_leases clock con in
      do
        e ← open_row execution_id con1.db.executions
        raise_if
            (not (text_eq worker.task_id e.request.task_id)
              || not (int_eq worker.route_epoch (pos e.request.route_epoch)))
            worker_mismatch
        lease ← worker_lease execution_id worker con1.db.resource_leases
        raise_if
            (not (int_eq (pos lease.generation) worker.generation)
              || not (text_eq lease.fencing_token worker.fencing_token))
            worker_lease_mismatch
        settle_receipt sha256 execution_id (receipt_of execution_id e worker (clock con1.reads))
            (record con1 { reads = con1.reads + 1 })
