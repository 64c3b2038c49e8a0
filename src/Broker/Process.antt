-- ===== src/Broker/Process.antt =====
-- tools/host_execution_broker: workers, start receipts, the classification of progress (models.py),
-- and the state of the transport and the budget of an episode (broker.py). Times are milliseconds.
mod Laws
mod Tests
use second_brain_coordinatio.Prelude.{
  ℕ, ◌+◌, Text, codes, text_eq, Bool, true, false, not, ◌&&◌, ◌||◌, Option, none, some, List, [],
  ◌∷◌, ◌++◌, Result, ok, err, ◌>>=◌, ◌>>◌, raise_if, ltb, leb, ◌==◌, any, if◌then◌else◌,
}
use second_brain_coordinatio.Prelude.Int.{ℤ, pos, negsuc}
use second_brain_coordinatio.Kernel.Canonical.Json.{Value, null, int, str, obj, Fields, end, field}
use second_brain_coordinatio.Broker.WritePaths.{is_empty, strip}
use second_brain_coordinatio.Broker.Models.{
  ModelError, bad_worker_numbers, empty_identity_field, stall_not_positive, blank, ProgressState,
  TransportState,
}

-- `m < n`
abbrev pub int_ltb : ℤ → ℤ → Bool
int_ltb (pos m) (pos n) = ltb m n
int_ltb (pos m) (negsuc n) = false
int_ltb (negsuc m) (pos n) = true
int_ltb (negsuc m) (negsuc n) = ltb n m

-- `m == n`
abbrev pub int_eq : ℤ → ℤ → Bool
int_eq (pos m) (pos n) = m == n
int_eq (negsuc m) (negsuc n) = m == n
int_eq (pos m) (negsuc n) = false
int_eq (negsuc m) (pos n) = false

pub record WorkerIdentity : Type 0 where
  pub pid : ℤ
  pub process_creation_identity : Text
  pub session_id : Text
  pub executor_id : Text
  pub task_id : Text
  pub route_epoch : ℤ
  pub execution_lease_id : Text
  pub generation : ℤ
  pub fencing_token : Text
  pub cli_path : Text
  pub cli_version : Text
  pub endpoint : Option Text

-- `WorkerIdentity(...)` with its `__post_init__`
unfoldable pub new_worker : WorkerIdentity → Result ModelError WorkerIdentity
unfolding strip
new_worker w = do
  raise_if (int_ltb w.pid (pos 1) || int_ltb w.route_epoch (pos 1) || int_ltb w.generation (pos 1))
      bad_worker_numbers
  raise_if
      (any blank (
        w.process_creation_identity ∷ w.session_id ∷ w.executor_id ∷ w.task_id
        ∷ w.execution_lease_id ∷ w.fencing_token ∷ w.cli_path ∷ w.cli_version ∷ []))
      empty_identity_field
  ok w

abbrev pub option_text_eq : Option Text → Option Text → Bool
option_text_eq none none = true
option_text_eq (some s) (some t) = text_eq s t
option_text_eq none (some t) = false
option_text_eq (some s) none = false

-- `observed == expected`, field by field
unfoldable pub process_identity_matches : WorkerIdentity → WorkerIdentity → Bool
process_identity_matches o e =
    int_eq o.pid e.pid
    && text_eq o.process_creation_identity e.process_creation_identity
    && text_eq o.session_id e.session_id
    && text_eq o.executor_id e.executor_id
    && text_eq o.task_id e.task_id
    && int_eq o.route_epoch e.route_epoch
    && text_eq o.execution_lease_id e.execution_lease_id
    && int_eq o.generation e.generation
    && text_eq o.fencing_token e.fencing_token
    && text_eq o.cli_path e.cli_path
    && text_eq o.cli_version e.cli_version
    && option_text_eq o.endpoint e.endpoint

pub record ProcessStartReceipt : Type 0 where
  pub schema : Text
  pub execution_id : Text
  pub broker_key : Text
  pub task_id : Text
  pub route_epoch : ℕ
  pub role : Text
  pub branch : Text
  pub worktree : Text
  pub collision_domain : Text
  pub carrier : Text
  pub model : Text
  pub canonical_main_sha : Text
  pub worker : WorkerIdentity
  pub issued_at_ms : ℕ

abbrev option_value : Option Text → Value
option_value none = null
option_value (some t) = str t

-- `asdict(worker)`
unfoldable pub worker_value : WorkerIdentity → Value
worker_value w = obj (
    field (codes "pid") (int w.pid) (
      field (codes "process_creation_identity") (str w.process_creation_identity) (
        field (codes "session_id") (str w.session_id) (
          field (codes "executor_id") (str w.executor_id) (
            field (codes "task_id") (str w.task_id) (
              field (codes "route_epoch") (int w.route_epoch) (
                field (codes "execution_lease_id") (str w.execution_lease_id) (
                  field (codes "generation") (int w.generation) (
                    field (codes "fencing_token") (str w.fencing_token) (
                      field (codes "cli_path") (str w.cli_path) (
                        field (codes "cli_version") (str w.cli_version)
                          (field (codes "endpoint") (option_value w.endpoint) end))))))))))))

-- `asdict(receipt)`
unfoldable pub receipt_value : ProcessStartReceipt → Value
unfolding worker_value
receipt_value r = obj (
    field (codes "schema") (str r.schema) (
      field (codes "execution_id") (str r.execution_id) (
        field (codes "broker_key") (str r.broker_key) (
          field (codes "task_id") (str r.task_id) (
            field (codes "route_epoch") (int (pos r.route_epoch)) (
              field (codes "role") (str r.role) (
                field (codes "branch") (str r.branch) (
                  field (codes "worktree") (str r.worktree) (
                    field (codes "collision_domain") (str r.collision_domain) (
                      field (codes "carrier") (str r.carrier) (
                        field (codes "model") (str r.model) (
                          field (codes "canonical_main_sha") (str r.canonical_main_sha) (
                            field (codes "worker") (worker_value r.worker) (
                              field (codes "issued_at_ms") (int (pos r.issued_at_ms))
                                end))))))))))))))

-- Equality of the payloads without `issued_at_ms`
unfoldable pub same_start : ProcessStartReceipt → ProcessStartReceipt → Bool
unfolding process_identity_matches
same_start p c =
    text_eq p.schema c.schema
    && text_eq p.execution_id c.execution_id
    && text_eq p.broker_key c.broker_key
    && text_eq p.task_id c.task_id
    && (p.route_epoch == c.route_epoch)
    && text_eq p.role c.role
    && text_eq p.branch c.branch
    && text_eq p.worktree c.worktree
    && text_eq p.collision_domain c.collision_domain
    && text_eq p.carrier c.carrier
    && text_eq p.model c.model
    && text_eq p.canonical_main_sha c.canonical_main_sha
    && process_identity_matches p.worker c.worker

pub record ProgressObservation : Type 0 where
  pub now_ms : ℕ
  pub process_alive : Bool
  pub process_started : Bool
  pub process_started_at_ms : Option ℕ
  pub heartbeat_at_ms : Option ℕ
  pub model_response_at_ms : Option ℕ
  pub meaningful_progress_at_ms : Option ℕ
  pub expected_idle : Bool
  pub terminal : Bool

-- `at is not None and now - at <= stall_after`
abbrev pub is_recent : ℕ → ℕ → Option ℕ → Bool
is_recent now stall_after none = false
is_recent now stall_after (some at) = leb now (at + stall_after)

-- The last three tests of `classify`.
unfoldable pub classify_progress : ℕ → ProgressObservation → ProgressState
classify_progress stall_after o = elim o.meaningful_progress_at_ms [
  | none ↦
      (if is_recent o.now_ms stall_after o.process_started_at_ms
        then ProgressState.starting
        else ProgressState.stalled)
  | some at ↦
      (if ltb (at + stall_after) o.now_ms then ProgressState.stalled else ProgressState.running)
]

unfoldable pub classify : ℕ → ProgressObservation → Result ModelError ProgressState
unfolding classify_progress
classify stall_after o = do
  raise_if (ltb stall_after 1) stall_not_positive
  ok (
      if o.terminal
      then ProgressState.complete
      else if not o.process_started
      then ProgressState.authorized_not_started
      else if not o.process_alive
      then ProgressState.worker_failure
      else if o.expected_idle
      then ProgressState.idle_expected
      else classify_progress stall_after o)

-- `worker_alive` is `none` where it is not known.
unfoldable pub transport_state : Bool → Option Bool → TransportState
transport_state true alive = TransportState.outcome_unknown
transport_state false (some false) = TransportState.worker_failure
transport_state false (some true) = TransportState.fine
transport_state false none = TransportState.fine

pub data EpisodeBudgetOutcome : Type 0 where
  continue_episode checkpoint_and_successor mission_complete : EpisodeBudgetOutcome

pub record EpisodeBudgetDecision : Type 0 where
  pub outcome : EpisodeBudgetOutcome
  pub checkpoint_required : Bool
  pub successor_episode_required : Bool
  pub checkpoint_ref : Option Text

pub data BudgetError : Type 0 where
  invalid_budget checkpoint_ref_required : BudgetError

-- `not t`
abbrev pub missing : Option Text → Bool
missing none = true
missing (some t) = is_empty t

unfoldable pub episode_budget :
    ℤ → ℤ → Bool → Option Text → Result BudgetError EpisodeBudgetDecision
episode_budget turns_used max_turns complete checkpoint_ref = do
  raise_if (int_ltb turns_used (pos 0) || int_ltb max_turns (pos 1)) invalid_budget
  if complete
      then ok (record {
        outcome = mission_complete;
        checkpoint_required = false;
        successor_episode_required = false;
        checkpoint_ref = checkpoint_ref;
      })
      else if int_ltb turns_used max_turns
      then ok (record {
        outcome = continue_episode;
        checkpoint_required = false;
        successor_episode_required = false;
        checkpoint_ref = checkpoint_ref;
      })
      else (do
        raise_if (missing checkpoint_ref) checkpoint_ref_required
        ok (record {
          outcome = checkpoint_and_successor;
          checkpoint_required = true;
          successor_episode_required = true;
          checkpoint_ref = checkpoint_ref;
        }))
