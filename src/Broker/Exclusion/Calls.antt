-- ===== src/Broker/Exclusion/Calls.antt =====
-- Sequences of calls of the broker, and what all of them keep of the leases.
use mathlib.Core.Path.{subst}
use second_brain_coordinatio.Prelude.{
  ℕ, ◌+◌, Text, Bool, List, [], ◌∷◌, map, none, ◌≡◌, ap, ◌∙◌, text_eq, arith, Result, ok, err,
  >>=-eq-ok, raise_if-ok, ok_injective, Bool-cases, Option-cases, Result-cases, inl, inr, select,
}
use second_brain_coordinatio.Broker.Models.{ExecutionRequest, ResourceClaim}
use second_brain_coordinatio.Broker.Request.{all_claims, idempotency_key}
use second_brain_coordinatio.Broker.Request.Distinct.{Distinct, all_claims-Distinct}
use second_brain_coordinatio.Broker.Process.{WorkerIdentity, ProcessStartReceipt}
use second_brain_coordinatio.Broker.Store.{
  ExecutionRow, LeaseRow, Database, Connection, expire_stale_leases,
}
use second_brain_coordinatio.Broker.Admission.{
  claims_of, check_claims, grant_claims, grant_admission, admit_claims, admit,
}
use second_brain_coordinatio.Broker.Rules.{
  BrokerError, integrity_error, execution_not_active, lease_not_active, lease_mismatch,
  newer_generation, HostExecutionBroker, AdmissionDecision, LeaseBinding, find, newest,
  same_episode, is_current, bound_elsewhere, worker_mismatch, worker_lease_mismatch,
}
use second_brain_coordinatio.Broker.Lifecycle.{
  extend_row, release_row, renew, assert_effect_authorized, release, bind_process_start,
  store_receipt, open_row, oldest, worker_lease, settle_receipt, active_row,
}
use second_brain_coordinatio.Broker.Exclusion.{Calms, expire_stale_leases-keeps}
use second_brain_coordinatio.Broker.Exclusion.Claims.{check_claims-keeps}

-- A call, with what the clock shows and what the token source draws during it.
pub data Op : Type 0 where
  admit_request : (clock : ℕ → ℕ) (token : ℕ → Text) (request : ExecutionRequest) → Op
  renew_lease : (clock : ℕ → ℕ) (binding : LeaseBinding) → Op
  authorize_effect : (clock : ℕ → ℕ) (binding : LeaseBinding) → Op
  release_execution : (clock : ℕ → ℕ) (execution_id terminal_state : Text) → Op
  bind_process : (clock : ℕ → ℕ) (execution_id : Text) (worker : WorkerIdentity) → Op

-- The tables after a call, and the ones before it where it raises.
abbrev pub committed : {A : Type 0} → Database → Result BrokerError (A × Connection) → Database
committed db (ok (a, con)) = con.db
committed db (err e) = db

abbrev pub committed_only : Database → Result BrokerError Connection → Database
committed_only db (ok con) = con.db
committed_only db (err e) = db

abbrev begin : Database → Connection
begin db = record { db = db; reads = 0 }

abbrev has_key : Text → ExecutionRow → Bool
has_key k r = text_eq r.idempotency_key k

extend_row-Calms : (id : Text) (at : ℕ) → Calms (extend_row id at)
unfolding extend_row
extend_row-Calms id at = record {
  same_type_of = λ r. ground arith;
  same_id_of = λ r. ground arith;
  same_units_of = λ r. ground arith;
  active_before = λ r h. ground arith;
}

release_row-Calms : (id : Text) (now : ℕ) → Calms (release_row id now)
unfolding release_row
release_row-Calms id now = record {
  same_type_of = λ r. ground arith;
  same_id_of = λ r. ground arith;
  same_units_of = λ r. ground arith;
  active_before = λ r h. ground arith;
}

module _ (sha256 nfc casefold : Text → Text) (broker : HostExecutionBroker) where
  unfoldable pub perform : Op → Database → Database
  perform (admit_request clock token request) db =
      committed db (admit sha256 nfc casefold clock token broker request (begin db))
  perform (renew_lease clock binding) db = committed db (renew clock broker binding (begin db))
  perform (authorize_effect clock binding) db =
      committed_only db (assert_effect_authorized clock binding (begin db))
  perform (release_execution clock id state) db =
      committed_only db (release clock id state (begin db))
  perform (bind_process clock id worker) db =
      committed db (bind_process_start clock sha256 id worker (begin db))

  unfoldable pub run : List Op → Database → Database
  unfolding perform
  run [] db = db
  run (op ∷ ops) db = run ops (perform op db)

  claims_of-Distinct :
      (clock : ℕ → ℕ) (token : ℕ → Text) (request : ExecutionRequest) (claims : List ResourceClaim)
      → claims_of sha256 nfc casefold clock token broker request ≡ ok claims
      → Distinct claims
  claims_of-Distinct clock token request claims h =
      elim (Result-cases (all_claims nfc casefold request)) [
        | inl (made, e) ↦
            subst Distinct (ok_injective (rw (claims_of, e) at h))
              (all_claims-Distinct nfc casefold request made e)
        | inr (problem, e) ↦ (let never = rw (claims_of, e) at h in cc)
      ]

  -- A predicate that calm changes keep, and the rows of a second loop after a first one in which every
  -- claim fits.
  module _ (P : List LeaseRow → Type 0)
      (calm : (f : LeaseRow → LeaseRow) (rows : List LeaseRow) → Calms f → P rows → P (map f rows))
      (granted-keeps : (clock : ℕ → ℕ) (token : ℕ → Text) (now : ℕ) (id task : Text)
          (claims : List ResourceClaim) (con con' : Connection)
          (r : List LeaseBinding × List LeaseRow)
        → check_claims sha256 nfc casefold clock token broker task claims con ≡ ok (none, con')
        → Distinct claims
        → grant_claims sha256 nfc casefold clock token broker 0 now id claims
            con'.db.resource_leases
          ≡ ok r
        → P con'.db.resource_leases
        → P r.1) where
    abbrev Leases : Connection → Type 0
    Leases con = P con.db.resource_leases

    admit_claims-keeps :
        (clock : ℕ → ℕ) (token : ℕ → Text) (request : ExecutionRequest) (con : Connection)
        (r : AdmissionDecision × Connection)
        → admit_claims sha256 nfc casefold clock token broker request con ≡ ok r
        → Leases con
        → Leases r.1
    unfolding admit_claims grant_admission
    admit_claims-keeps clock token request con r h e =
        let (claims, found, h) =
          >>=-eq-ok (claims_of sha256 nfc casefold clock token broker request) _ h in
        let (checked, passed, h) =
          >>=-eq-ok (check_claims sha256 nfc casefold clock token broker request.task_id claims con)
            _ h in
        let kept =
          check_claims-keeps sha256 nfc casefold broker P clock token request.task_id claims con
            checked passed (λ c. expire_stale_leases-keeps P clock c calm) e in
        elim (Option-cases checked.0) [
          | inr (d, no_fit) ↦ subst (λ x. Leases x.1) (ok_injective (rw no_fit at h)) kept
          | inl fit ↦
              (let (_, h) = raise_if-ok _ integrity_error _ (rw fit at h) in
                let (granted, done, h) =
                  >>=-eq-ok
                    (grant_claims sha256 nfc casefold clock token broker 0 (clock checked.1.reads) _
                      claims checked.1.db.resource_leases)
                    _ h in
                subst (λ x. Leases x.1) (ok_injective h)
                  (granted-keeps clock token (clock checked.1.reads) _ request.task_id claims con
                    checked.1 granted (passed ∙ ap (λ o. ok (o, checked.1)) fit)
                    (claims_of-Distinct clock token request claims found) done kept))
        ]

    admit-keeps :
        (clock : ℕ → ℕ) (token : ℕ → Text) (request : ExecutionRequest) (con : Connection)
        (r : AdmissionDecision × Connection)
        → admit sha256 nfc casefold clock token broker request con ≡ ok r
        → Leases con
        → Leases r.1
    unfolding admit
    admit-keeps clock token request con r h e =
        let expired = expire_stale_leases clock con in
        let once = expire_stale_leases-keeps P clock con calm e in
        let twice = expire_stale_leases-keeps P clock expired calm once in
        elim (Bool-cases (is_current request.authority_state)) [
          | inr stale ↦ subst (λ x. Leases x.1) (ok_injective (rw (admit, stale) at h)) once
          | inl current ↦
              elim (Option-cases
                (find (has_key (idempotency_key sha256 request)) expired.db.executions)) [
                  | inr (duplicate, known) ↦
                      subst (λ x. Leases x.1) (ok_injective (rw (admit, current, known) at h)) once
                  | inl new ↦
                      elim (Option-cases (
                        newest (
                          select (same_episode request)
                            (expire_stale_leases clock expired).db.executions))) [
                              | inr (prior, busy) ↦
                                  subst (λ x. Leases x.1)
                                    (ok_injective (rw (admit, current, new, busy) at h)) twice
                              | inl idle ↦
                                  admit_claims-keeps clock token request
                                    (expire_stale_leases clock expired) r
                                    (rw (admit, current, new, idle) at h) twice
                            ]
                ]
        ]

    renew-keeps :
        (clock : ℕ → ℕ) (b : LeaseBinding) (con : Connection) (r : LeaseBinding × Connection)
        → renew clock broker b con ≡ ok r
        → Leases con
        → Leases r.1
    unfolding renew
    renew-keeps clock b con r h e =
        let con1 = expire_stale_leases clock con in
        let (row, found, h) =
          >>=-eq-ok (active_row lease_not_active b.lease_id con1.db.resource_leases) _ h in
        let (_, h) = raise_if-ok _ lease_mismatch _ h in
        subst (λ x. Leases x.1) (ok_injective h)
          (calm (extend_row b.lease_id _) con1.db.resource_leases (extend_row-Calms b.lease_id _)
            (expire_stale_leases-keeps P clock con calm e))

    assert_effect_authorized-keeps :
        (clock : ℕ → ℕ) (b : LeaseBinding) (con con' : Connection)
        → assert_effect_authorized clock b con ≡ ok con'
        → Leases con
        → Leases con'
    unfolding assert_effect_authorized
    assert_effect_authorized-keeps clock b con con' h e =
        let con1 = expire_stale_leases clock con in
        let (row, found, h) =
          >>=-eq-ok (active_row lease_not_active b.lease_id con1.db.resource_leases) _ h in
        let (_, h) = raise_if-ok _ lease_mismatch _ h in
        let (_, h) = raise_if-ok _ newer_generation _ h in
        subst Leases (ok_injective h) (expire_stale_leases-keeps P clock con calm e)

    release-keeps :
        (clock : ℕ → ℕ) (id state : Text) (con con' : Connection)
        → release clock id state con ≡ ok con'
        → Leases con
        → Leases con'
    unfolding release
    release-keeps clock id state con con' h e =
        let (_, h) = raise_if-ok _ execution_not_active _ h in
        subst Leases (ok_injective h) (
          calm (release_row id (clock con.reads)) con.db.resource_leases
            (release_row-Calms id (clock con.reads)) e)

    store_receipt-keeps :
        (clock : ℕ → ℕ) (id : Text) (receipt : ProcessStartReceipt) (con con' : Connection)
        → store_receipt clock sha256 id receipt con ≡ ok con'
        → Leases con
        → Leases con'
    unfolding store_receipt
    store_receipt-keeps clock id receipt con con' h e =
        let (_, h) = raise_if-ok _ integrity_error _ h in subst Leases (ok_injective h) e

    settle_receipt-keeps :
        (clock : ℕ → ℕ) (id : Text) (receipt : ProcessStartReceipt) (con : Connection)
        (r : ProcessStartReceipt × Connection)
        → settle_receipt clock sha256 id receipt con ≡ ok r
        → Leases con
        → Leases r.1
    unfolding settle_receipt
    settle_receipt-keeps clock id receipt con r h e =
        elim (Option-cases
          (oldest (select (λ x. text_eq x.execution_id id) con.db.process_receipts))) [
            | inr (prior, known) ↦
                (let (_, h) = raise_if-ok _ bound_elsewhere _ (rw (settle_receipt, known) at h) in
                  subst (λ x. Leases x.1) (ok_injective h) e)
            | inl new ↦
                (let (stored, done, h) =
                    >>=-eq-ok (store_receipt clock sha256 id receipt con) _
                      (rw (settle_receipt, new) at h) in
                  subst (λ x. Leases x.1) (ok_injective h)
                    (store_receipt-keeps clock id receipt con stored done e))
          ]

    bind_process_start-keeps :
        (clock : ℕ → ℕ) (id : Text) (worker : WorkerIdentity) (con : Connection)
        (r : ProcessStartReceipt × Connection)
        → bind_process_start clock sha256 id worker con ≡ ok r
        → Leases con
        → Leases r.1
    unfolding bind_process_start
    bind_process_start-keeps clock id worker con r h e =
        let con1 = expire_stale_leases clock con in
        let (row, _, h) = >>=-eq-ok (open_row clock id con1.db.executions) _ h in
        let (_, h) = raise_if-ok _ worker_mismatch _ h in
        let (lease, _, h) = >>=-eq-ok (worker_lease clock id worker con1.db.resource_leases) _ h in
        let (_, h) = raise_if-ok _ worker_lease_mismatch _ h in
        settle_receipt-keeps clock id _ (record con1 { reads = con1.reads + 1 }) r h
          (expire_stale_leases-keeps P clock con calm e)

    perform-keeps :
        (op : Op) (db : Database) → P db.resource_leases → P (perform op db).resource_leases
    unfolding perform
    perform-keeps (admit_request clock token request) db e =
        elim (Result-cases (admit sha256 nfc casefold clock token broker request (begin db))) [
          | inl (r, done) ↦ rw done (admit-keeps clock token request (begin db) r done e)
          | inr (problem, failed) ↦ rw failed e
        ]
    perform-keeps (renew_lease clock b) db e =
        elim (Result-cases (renew clock broker b (begin db))) [
          | inl (r, done) ↦ rw done (renew-keeps clock b (begin db) r done e)
          | inr (problem, failed) ↦ rw failed e
        ]
    perform-keeps (authorize_effect clock b) db e =
        elim (Result-cases (assert_effect_authorized clock b (begin db))) [
          | inl (con, done) ↦ rw done (assert_effect_authorized-keeps clock b (begin db) con done e)
          | inr (problem, failed) ↦ rw failed e
        ]
    perform-keeps (release_execution clock id state) db e =
        elim (Result-cases (release clock id state (begin db))) [
          | inl (con, done) ↦ rw done (release-keeps clock id state (begin db) con done e)
          | inr (problem, failed) ↦ rw failed e
        ]
    perform-keeps (bind_process clock id worker) db e =
        elim (Result-cases (bind_process_start clock sha256 id worker (begin db))) [
          | inl (r, done) ↦ rw done (bind_process_start-keeps clock id worker (begin db) r done e)
          | inr (problem, failed) ↦ rw failed e
        ]

    pub run-keeps :
        (ops : List Op) (db : Database) → P db.resource_leases → P (run ops db).resource_leases
    unfolding run
    run-keeps [] db e = e
    run-keeps (op ∷ ops) db e = run-keeps ops (perform op db) (perform-keeps op db e)
