-- ===== src/Broker/Rules.antt =====
-- tools/host_execution_broker/broker.py: the errors, the configuration, and the queries and rules by
-- which `admit` compares a claim with the leases.
use second_brain_coordinatio.Prelude.{
  ℕ, ◌+◌, Text, codes, text_eq, Bool, true, false, ◌&&◌, ◌||◌, Option, none, some, List, [], ◌∷◌,
  ◌++◌, Result, ok, err, ◌>>=◌, ltb, leb, ◌==◌, all, select, if◌then◌else◌,
}
use second_brain_coordinatio.Prelude.Int.{pos}
use second_brain_coordinatio.Kernel.Canonical.Json.{jcs_number}
use second_brain_coordinatio.Broker.WritePaths.{PathError, write_surfaces_overlap}
use second_brain_coordinatio.Broker.Models.{
  DecisionOutcome, ResourceMode, ResourceType, same_type, ResourceClaim, ExecutionRequest,
  AuthorityState, ModelError, is_write_surface, maximum,
}
use second_brain_coordinatio.Broker.Store.{
  ExecutionStatus, is_active_execution, RowStatus, is_active_status, ExecutionRow, LeaseRow,
}

-- What the calls of the broker raise.
pub data BrokerError : Type 0 where
  surface_error : PathError → BrokerError
  claim_error : ModelError → BrokerError
  integrity_error : BrokerError
  lease_not_active lease_mismatch newer_generation : BrokerError
  execution_not_active execution_inactive worker_mismatch : BrokerError
  worker_lease_inactive worker_lease_mismatch bound_elsewhere : BrokerError

-- The configuration of a broker.
pub record HostExecutionBroker : Type 0 where
  pub capacities : List (ResourceType × ℕ)
  pub lease_ttl_ms : ℕ

abbrev pub default_capacity : List (ResourceType × ℕ)
default_capacity =
    (ResourceType.cpu_light, 8) ∷ (ResourceType.cpu_heavy, 2) ∷ (ResourceType.gpu_local, 1) ∷ []

unfoldable pub capacity_of : ResourceType → List (ResourceType × ℕ) → Option ℕ
capacity_of t [] = none
capacity_of t ((u, n) ∷ d) = if same_type u t then some n else capacity_of t d

-- `LeaseBinding`; its holder is the execution, and its state is active.
pub record LeaseBinding : Type 0 where
  pub lease_id : Text
  pub execution_id : Text
  pub holder : Text
  pub resource_type : ResourceType
  pub resource_id : Text
  pub mode : ResourceMode
  pub generation : ℕ
  pub fencing_token : Text
  pub issued_at_ms : ℕ
  pub expires_at_ms : ℕ
  pub state : RowStatus

pub record AdmissionDecision : Type 0 where
  pub outcome : DecisionOutcome
  pub execution_id : Option Text
  pub broker_key : Option Text
  pub reason : Text
  pub leases : List LeaseBinding
  pub joined_execution_id : Option Text

-- `ALWAYS_EXCLUSIVE`
abbrev pub always_exclusive : ResourceType → Bool
always_exclusive ResourceType.rdc_process_mutation_channel = true
always_exclusive ResourceType.workbuddy_daemon = true
always_exclusive ResourceType.workbuddy_agent_session = true
always_exclusive ResourceType.workbuddy_one_time_runner = true
always_exclusive ResourceType.codex_session = true
always_exclusive ResourceType.local_port = true
always_exclusive ResourceType.exclusive_local_runtime = true
always_exclusive _ = false

-- `READ_SHAREABLE`
abbrev pub read_shareable : ResourceType → Bool
read_shareable ResourceType.host = true
read_shareable ResourceType.branch = true
read_shareable ResourceType.worktree = true
read_shareable ResourceType.collision_domain = true
read_shareable ResourceType.write_surface = true
read_shareable ResourceType.market_data_provider = true
read_shareable _ = false

abbrev pub is_read : ResourceMode → Bool
is_read ResourceMode.read = true
is_read ResourceMode.write = false

abbrev pub is_nil {ℓ} : {A : Type ℓ} → List A → Bool
is_nil [] = true
is_nil (x ∷ xs) = false

-- `sum(int(row["units"]) for row in active)`
unfoldable pub used_units : List LeaseRow → ℕ
used_units [] = 0
used_units (r ∷ rs) = r.units + used_units rs

-- `f"capacity {used}+{units}/{capacity}"`
unfoldable pub capacity_detail : ℕ → ℕ → ℕ → Text
capacity_detail used units capacity =
    codes "capacity "
    ++ jcs_number (pos used) (b'+' ∷ jcs_number (pos units) (b'/' ∷ jcs_number (pos capacity) []))

-- `_claim_compatible`
unfoldable pub claim_compatible :
    List (ResourceType × ℕ) → ResourceClaim → List LeaseRow → Bool × Text
unfolding capacity_of used_units capacity_detail
claim_compatible capacities claim rows =
    let used = used_units rows in
    if is_nil rows
    then (true, codes "free")
    else if claim.exclusive || always_exclusive claim.resource_type
    then (false, codes "exclusive resource already leased")
    else elim (capacity_of claim.resource_type capacities) [
      | some capacity ↦
          (leb (used + claim.units) capacity, capacity_detail used claim.units capacity)
      | none ↦
          (if read_shareable claim.resource_type
            then (if is_read claim.mode && all (λ r. is_read r.mode) rows
                then (true, codes "read/read compatible")
                else (false, codes "mutable access conflicts with existing claim"))
            else (false, codes "unknown resource compatibility fails closed"))
    ]

-- `_conflict_outcome`
unfoldable pub conflict_outcome : ResourceType → DecisionOutcome
conflict_outcome ResourceType.workbuddy_one_time_runner = DecisionOutcome.reroute
conflict_outcome ResourceType.cpu_light = DecisionOutcome.wait
conflict_outcome ResourceType.cpu_heavy = DecisionOutcome.wait
conflict_outcome ResourceType.gpu_local = DecisionOutcome.wait
conflict_outcome ResourceType.market_data_provider = DecisionOutcome.wait
conflict_outcome ResourceType.rdc_process_mutation_channel = DecisionOutcome.wait
conflict_outcome _ = DecisionOutcome.block_conflict

abbrev pub outcome_value : DecisionOutcome → Text
outcome_value DecisionOutcome.admit = codes "ADMIT"
outcome_value DecisionOutcome.wait = codes "WAIT"
outcome_value DecisionOutcome.join_existing = codes "JOIN_EXISTING"
outcome_value DecisionOutcome.block_conflict = codes "BLOCK_CONFLICT"
outcome_value DecisionOutcome.reroute = codes "REROUTE"

abbrev pub is_current : AuthorityState → Bool
is_current AuthorityState.current = true
is_current _ = false

abbrev pub authority_value : AuthorityState → Text
authority_value AuthorityState.current = codes "CURRENT"
authority_value AuthorityState.unknown = codes "UNKNOWN"
authority_value AuthorityState.stale = codes "STALE"
authority_value AuthorityState.revoked = codes "REVOKED"

abbrev pub status_value : ExecutionStatus → Text
status_value ExecutionStatus.admitted = codes "ADMITTED"
status_value ExecutionStatus.running = codes "RUNNING"
status_value ExecutionStatus.checkpointing = codes "CHECKPOINTING"
status_value ExecutionStatus.resuming = codes "RESUMING"
status_value ExecutionStatus.terminal = codes "TERMINAL"
status_value ExecutionStatus.fenced = codes "FENCED"

-- The first row that passes a test.
unfoldable pub find {ℓ} : {A : Type ℓ} → (A → Bool) → List A → Option A
find test [] = none
find test (x ∷ xs) = if test x then some x else find test xs

-- `ORDER BY created_at_ms DESC LIMIT 1`
unfoldable pub newest : List ExecutionRow → Option ExecutionRow
newest [] = none
newest (r ∷ rs) = elim (newest rs) [
  | none ↦ some r
  | some s ↦ (if ltb r.created_at_ms s.created_at_ms then some s else some r)
]

-- The answer to a request whose key is known.
abbrev pub joined : ExecutionRow → AdmissionDecision
joined r = record {
  outcome = DecisionOutcome.join_existing;
  execution_id = some r.execution_id;
  broker_key = some r.broker_key;
  reason =
      codes "idempotency key already materialized in state "
      ++ status_value r.status
      ++ codes "; no second writer";
  leases = [];
  joined_execution_id = some r.execution_id;
}

-- The `WHERE` of `_active_attempt_for_episode`.
abbrev pub same_episode : ExecutionRequest → ExecutionRow → Bool
same_episode q r =
    text_eq r.request.project_id q.project_id
    && text_eq r.request.task_id q.task_id
    && (r.request.route_epoch == q.route_epoch)
    && text_eq r.request.episode_id q.episode_id
    && is_active_execution r.status

abbrev pub same_resource : ResourceType → Text → LeaseRow → Bool
same_resource t id r = same_type r.resource_type t && text_eq r.resource_id id

-- `SELECT COALESCE(MAX(generation),0) ...`
unfoldable pub max_generation : ResourceType → Text → List LeaseRow → ℕ
max_generation t id [] = 0
max_generation t id (r ∷ rs) =
    let rest = max_generation t id rs in
    if same_resource t id r then maximum r.generation rest else rest

module _ (nfc casefold : Text → Text) where
  -- The rows whose write surface overlaps one surface.
  unfoldable pub overlapping : Text → List LeaseRow → Result BrokerError (List LeaseRow)
  unfolding write_surfaces_overlap
  overlapping id [] = ok []
  overlapping id (r ∷ rs) = elim (write_surfaces_overlap nfc casefold id r.resource_id) [
    | err e ↦ err (surface_error e)
    | ok found ↦ (do rest ← overlapping id rs; ok (if found then r ∷ rest else rest))
  ]

  -- The queries of `_active_leases`.
  unfoldable pub active_leases : ResourceClaim → List LeaseRow → Result BrokerError (List LeaseRow)
  unfolding overlapping
  active_leases claim rows =
      if is_write_surface claim.resource_type
      then overlapping claim.resource_id (
          select (λ r. same_type r.resource_type claim.resource_type && is_active_status r.status)
            rows)
      else ok (
          select
            (λ r.
              same_resource claim.resource_type claim.resource_id r && is_active_status r.status)
            rows)
