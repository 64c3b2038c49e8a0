-- ===== src/Broker/Admission.antt =====
-- tools/host_execution_broker/broker.py: `admit` and what it calls. An exception rolls the
-- transaction back, so an error stands for unchanged tables. `token n` is the draw number `n` of
-- `secrets.token_hex(16)` within one call.
pub mod Compatibility
mod Joining
mod Tests
use second_brain_coordinatio.Broker.Rules.{
  AdmissionDecision, BrokerError, HostExecutionBroker, LeaseBinding, active_leases, authority_value,
  claim_compatible, claim_error, conflict_outcome, find, integrity_error, is_current, joined,
  max_generation, newest, outcome_value, same_episode,
}
use second_brain_coordinatio.Prelude.{
  ℕ, zero, suc, ◌+◌, Text, codes, text_eq, mem_text, Bool, true, false, not, ◌&&◌, ◌||◌, Option,
  none, some, is_some, List, [], ◌∷◌, ◌++◌, map, Result, ok, err, ◌>>=◌, ◌>>◌, raise_if, ltb, leb,
  ◌==◌, any, all, select, if◌then◌else◌,
}
use second_brain_coordinatio.Prelude.Int.{pos}
use second_brain_coordinatio.Kernel.Canonical.Json.{
  Value, str, arr, Items, nil, cons, Fields, end, field, jcs_number,
}
use second_brain_coordinatio.Broker.WritePaths.{PathError, write_surfaces_overlap}
use second_brain_coordinatio.Broker.Models.{
  DecisionOutcome, ResourceMode, ResourceType, same_type, ResourceClaim, claim_key,
  ExecutionRequest, AuthorityState, ModelError, is_write_surface, maximum,
}
use second_brain_coordinatio.Broker.Request.{
  prefix, suffix, idempotency_key, execution_identity, broker_key, all_claims,
}
use second_brain_coordinatio.Broker.Store.{
  ExecutionStatus, is_active_execution, RowStatus, is_active_status, ExecutionRow, LeaseRow,
  Database, Connection, add_event, expire_stale_leases,
}

module _ (sha256 nfc casefold : Text → Text) (clock : ℕ → ℕ) (token : ℕ → Text)
    (broker : HostExecutionBroker) where
  abbrev pub denial : ResourceClaim → Text → AdmissionDecision
  denial claim detail = record {
    outcome = conflict_outcome claim.resource_type;
    execution_id = none;
    broker_key = none;
    reason = claim_key claim ++ codes ": " ++ detail;
    leases = [];
    joined_execution_id = none;
  }

  -- The event of a denial.
  abbrev pub deny : Text → ResourceClaim → Text → Connection → Connection
  deny task claim detail = add_event clock none (codes "ADMISSION_DENIED") (
      field (codes "task_id") (str task) (
        field (codes "resource") (str (claim_key claim)) (
          field (codes "outcome") (str (outcome_value (conflict_outcome claim.resource_type)))
            (field (codes "detail") (str detail) end))))

  -- The first loop of `admit`: the denial of the first claim that does not fit.
  unfoldable pub check_claims :
      Text
      → List ResourceClaim
      → Connection
      → Result BrokerError (Option AdmissionDecision × Connection)
  unfolding active_leases claim_compatible expire_stale_leases
  check_claims task [] con = ok (none, con)
  check_claims task (claim ∷ claims) con =
      let con' = expire_stale_leases clock con in
      do
        rows ← active_leases nfc casefold claim con'.db.resource_leases
        let (compatible, detail) = claim_compatible broker.capacities claim rows
        elim compatible [
          | true ↦ check_claims task claims con'
          | false ↦ ok (some (denial claim detail), deny task claim detail con')
        ]

  -- The row that one round of the second loop of `admit` inserts.
  unfoldable pub new_lease : ℕ → ℕ → Text → ResourceClaim → List LeaseRow → LeaseRow
  unfolding claim_key prefix suffix max_generation
  new_lease n now execution_id claim rows =
      let generation = max_generation claim.resource_type claim.resource_id rows + 1 in
      let digest = sha256 (
        execution_id
        ++ b'|' ∷ (claim_key claim ++ b'|' ∷ jcs_number (pos generation) (b'|' ∷ token n))) in
      record {
        lease_id = codes "HL-" ++ prefix 24 digest;
        execution_id = execution_id;
        resource_type = claim.resource_type;
        resource_id = claim.resource_id;
        mode = claim.mode;
        units = claim.units;
        generation = generation;
        fencing_token = codes "F-" ++ prefix 32 (suffix 24 digest);
        status = RowStatus.active;
        acquired_at_ms = now;
        expires_at_ms = now + broker.lease_ttl_ms;
        released_at_ms = none;
      }

  abbrev pub binding_of : LeaseRow → LeaseBinding
  binding_of r = record {
    lease_id = r.lease_id;
    execution_id = r.execution_id;
    holder = r.execution_id;
    resource_type = r.resource_type;
    resource_id = r.resource_id;
    mode = r.mode;
    generation = r.generation;
    fencing_token = r.fencing_token;
    issued_at_ms = r.acquired_at_ms;
    expires_at_ms = r.expires_at_ms;
    state = RowStatus.active;
  }

  -- The second loop of `admit`: the bindings, and the rows after the inserts.
  unfoldable pub grant_claims :
      ℕ
      → ℕ
      → Text
      → List ResourceClaim
      → List LeaseRow
      → Result BrokerError (List LeaseBinding × List LeaseRow)
  unfolding new_lease
  grant_claims n now execution_id [] rows = ok ([], rows)
  grant_claims n now execution_id (claim ∷ claims) rows = do
    let row = new_lease n now execution_id claim rows
    raise_if (any (λ r. text_eq r.lease_id row.lease_id) rows) integrity_error
    granted ← grant_claims (suc n) now execution_id claims (rows ++ row ∷ [])
    ok (binding_of row ∷ granted.0, granted.1)

  abbrev lease_ids : List LeaseBinding → Items
  lease_ids [] = nil
  lease_ids (b ∷ bs) = cons (str b.lease_id) (lease_ids bs)

  -- The end of `admit`, where every claim fits.
  unfoldable pub grant_admission :
      ExecutionRequest
      → List ResourceClaim
      → Connection
      → Result BrokerError (AdmissionDecision × Connection)
  unfolding grant_claims add_event execution_identity broker_key idempotency_key prefix
  grant_admission request claims con = do
    let now = clock con.reads
    let execution_id = codes "EX-" ++ prefix 24 (execution_identity sha256 request)
    let key = broker_key sha256 request
    raise_if
        (any (λ r. text_eq r.execution_id execution_id || text_eq r.broker_key key)
          con.db.executions)
        integrity_error
    granted ← grant_claims 0 now execution_id claims con.db.resource_leases
    ok (
      record {
        outcome = DecisionOutcome.admit;
        execution_id = some execution_id;
        broker_key = some key;
        reason = codes "atomic host admission committed";
        leases = granted.0;
        joined_execution_id = none;
      },
      add_event clock (some execution_id) (codes "ADMISSION_GRANTED")
          (field (codes "broker_key") (str key)
            (field (codes "resources") (arr (lease_ids granted.0)) end))
          (record {
            db = record con.db {
              executions =
                  con.db.executions
                  ++ record {
                    execution_id = execution_id;
                    idempotency_key = idempotency_key sha256 request;
                    request = request;
                    broker_key = key;
                    status = ExecutionStatus.admitted;
                    created_at_ms = now;
                    updated_at_ms = now;
                    terminal_state = none;
                  }
                    ∷ [];
              resource_leases = granted.1;
            };
            reads = con.reads + 1;
          }),
    )

  abbrev pub claims_of : ExecutionRequest → Result BrokerError (List ResourceClaim)
  claims_of request = elim (all_claims nfc casefold request) [
    | ok claims ↦ ok claims
    | err e ↦ err (claim_error e)
  ]

  -- The part of `admit` after its three early answers.
  unfoldable pub admit_claims :
      ExecutionRequest → Connection → Result BrokerError (AdmissionDecision × Connection)
  unfolding check_claims grant_admission all_claims
  admit_claims request con = do
    claims ← claims_of request
    checked ← check_claims request.task_id claims con
    elim checked.0 [
      | some denied ↦ ok (denied, checked.1)
      | none ↦ grant_admission request claims checked.1
    ]

  unfoldable pub admit :
      ExecutionRequest → Connection → Result BrokerError (AdmissionDecision × Connection)
  unfolding expire_stale_leases add_event find newest admit_claims idempotency_key
  admit request con =
      let con1 = expire_stale_leases clock con in
      let con2 = expire_stale_leases clock con1 in
      if not (is_current request.authority_state)
      then ok (
        record {
          outcome = DecisionOutcome.block_conflict;
          execution_id = none;
          broker_key = none;
          reason =
              codes "authority is "
              ++ authority_value request.authority_state
              ++ codes "; fail closed";
          leases = [];
          joined_execution_id = none;
        },
        add_event clock none (codes "ADMISSION_DENIED_STALE_AUTHORITY")
            (field (codes "task_id") (str request.task_id)
              (field (codes "authority_state") (str (authority_value request.authority_state)) end))
            con1,
      )
      else elim (find (λ r. text_eq r.idempotency_key (idempotency_key sha256 request))
          con1.db.executions) [
            | some duplicate ↦ ok (joined duplicate, con1)
            | none ↦ elim (newest (select (same_episode request) con2.db.executions)) [
              | some prior ↦ ok (
                record {
                  outcome = DecisionOutcome.wait;
                  execution_id = none;
                  broker_key = none;
                  reason = codes "previous attempt for this task/route/episode is still active";
                  leases = [];
                  joined_execution_id = some prior.execution_id;
                },
                con2,
              )
              | none ↦ admit_claims request con2
            ]
          ]
