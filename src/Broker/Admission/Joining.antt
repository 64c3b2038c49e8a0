-- ===== src/Broker/Admission/Joining.antt =====
-- The idempotency keys of the executions, and a request that is made again.
use mathlib.Core.Path.{subst}
use second_brain_coordinatio.Prelude.{
  ℕ, Text, codes, text_eq, text_eq_refl, Bool, true, Option, none, some, List, [], ◌∷◌, ◌++◌, map,
  ◌≡◌, ◌≢◌, refl, sym, ◌∙◌, ap, arith, ok, raise_if-ok, ok_injective, some_injective, >>=-eq-ok,
  Bool-cases, Option-cases, inl, inr, if◌then◌else◌, select,
}
use second_brain_coordinatio.Broker.Models.{
  DecisionOutcome, ResourceType, ResourceClaim, ExecutionRequest,
}
use second_brain_coordinatio.Broker.Request.{idempotency_key, execution_identity, prefix}
use second_brain_coordinatio.Broker.Store.{
  ExecutionRow, Connection, fence_execution, fence_one, fence_executions, expire_stale_leases,
  add_event,
}
use second_brain_coordinatio.Broker.Store.Expiry.{run_out, fence_one-executions}
use second_brain_coordinatio.Broker.Admission.{
  check_claims, grant_claims, grant_admission, claims_of, admit_claims, admit,
}
use second_brain_coordinatio.Broker.Rules.{
  HostExecutionBroker, AdmissionDecision, find, newest, same_episode, conflict_outcome, is_current,
  active_leases, claim_compatible, joined, integrity_error,
}

-- The execution of the first row with an idempotency key.
abbrev pub first_id : Text → List ExecutionRow → Option Text
first_id k [] = none
first_id k (r ∷ rs) = if text_eq r.idempotency_key k then some r.execution_id else first_id k rs

abbrev has_key : Text → ExecutionRow → Bool
has_key k r = text_eq r.idempotency_key k

find-first_id :
    (k x : Text) (rows : List ExecutionRow)
    → first_id k rows ≡ some x
    → (r : ExecutionRow) × (find (has_key k) rows ≡ some r) × (r.execution_id ≡ x)
unfolding find
find-first_id k x [] h = cc
find-first_id k x (r ∷ rs) h = elim (Bool-cases (has_key k r)) [
  | inl here ↦ (r, rw here refl, ground arith)
  | inr off ↦ (let (s, found, same) = find-first_id k x rs (rw off at h) in (s, rw off found, same))
]

find-none :
    (k : Text) (rows : List ExecutionRow) → find (has_key k) rows ≡ none → first_id k rows ≡ none
unfolding find
find-none k [] h = refl
find-none k (r ∷ rs) h = ground (arith, find-none k rs)

first_id-append :
    (k : Text) (rows : List ExecutionRow) (r : ExecutionRow)
    → first_id k rows ≡ none
    → r.idempotency_key ≡ k
    → first_id k (rows ++ r ∷ []) ≡ some r.execution_id
first_id-append k [] r h same = rw (same, text_eq_refl k) refl
first_id-append k (s ∷ rows) r h same = ground (arith, first_id-append k rows r)

first_id-map-fence_execution :
    (k : Text) (now : ℕ) (id : Text) (rows : List ExecutionRow)
    → first_id k (map (fence_execution now id) rows) ≡ first_id k rows
unfolding fence_execution
first_id-map-fence_execution k now id [] = refl
first_id-map-fence_execution k now id (r ∷ rs) =
    ground (arith, first_id-map-fence_execution k now id rs)

first_id-fence_executions :
    (k : Text) (clock : ℕ → ℕ) (now : ℕ) (ids : List Text) (con : Connection)
    → first_id k (fence_executions clock now ids con).db.executions ≡ first_id k con.db.executions
unfolding fence_executions
first_id-fence_executions k clock now [] con = refl
first_id-fence_executions k clock now (id ∷ ids) con =
    first_id-fence_executions k clock now ids (fence_one clock now id con)
    ∙ ap (first_id k) (fence_one-executions clock now id con)
    ∙ first_id-map-fence_execution k now id con.db.executions

first_id-expire_stale_leases :
    (k : Text) (clock : ℕ → ℕ) (con : Connection)
    → first_id k (expire_stale_leases clock con).db.executions ≡ first_id k con.db.executions
unfolding expire_stale_leases
first_id-expire_stale_leases k clock con =
    first_id-fence_executions k clock (clock con.reads) (run_out clock con) _

conflict_outcome-ne_admit : (t : ResourceType) → conflict_outcome t ≢ DecisionOutcome.admit
unfolding conflict_outcome
conflict_outcome-ne_admit ResourceType.workbuddy_one_time_runner h = cc
conflict_outcome-ne_admit _ h = cc

module _ (sha256 nfc casefold : Text → Text) (broker : HostExecutionBroker) where
  -- The first loop changes no key, and a denial is no admission.
  check_claims-keys :
      (clock : ℕ → ℕ) (token : ℕ → Text) (k task : Text) (claims : List ResourceClaim)
      (con con' : Connection) (o : Option AdmissionDecision)
      → check_claims sha256 nfc casefold clock token broker task claims con ≡ ok (o, con')
      → (first_id k con'.db.executions ≡ first_id k con.db.executions)
        × ((d : AdmissionDecision) → o ≡ some d → d.outcome ≢ DecisionOutcome.admit)
  unfolding check_claims add_event
  check_claims-keys clock token k task [] con con' o h =
      subst
        (λ r.
          (first_id k r.1.db.executions ≡ first_id k con.db.executions)
          × ((d : AdmissionDecision) → r.0 ≡ some d → d.outcome ≢ DecisionOutcome.admit))
        (ok_injective h) (refl, λ d e. cc)
  check_claims-keys clock token k task (claim ∷ claims) con con' o h =
      let expired = expire_stale_leases clock con in
      let (rows, queried, h) =
        >>=-eq-ok (active_leases nfc casefold claim expired.db.resource_leases) _ h in
      let (compatible, detail) = claim_compatible broker.capacities claim rows in
      let keys = first_id-expire_stale_leases k clock con in
      elim (Bool-cases compatible) [
        | inl fits ↦
            (let (rest, denied) =
                check_claims-keys clock token k task claims expired con' o (rw fits at h) in
              (rest ∙ keys, denied))
        | inr unfit ↦
            subst
              (λ r.
                (first_id k r.1.db.executions ≡ first_id k con.db.executions)
                × ((d : AdmissionDecision) → r.0 ≡ some d → d.outcome ≢ DecisionOutcome.admit))
              (ok_injective (rw unfit at h))
              (
                keys,
                λ d e bad.
                    conflict_outcome-ne_admit claim.resource_type
                      (ap AdmissionDecision.outcome (some_injective e) ∙ bad),
              )
      ]

  -- What is granted is the first row with the key of the request.
  grant_admission-keys :
      (clock : ℕ → ℕ) (token : ℕ → Text) (request : ExecutionRequest) (claims : List ResourceClaim)
      (con con' : Connection) (d : AdmissionDecision)
      → grant_admission sha256 nfc casefold clock token broker request claims con ≡ ok (d, con')
      → first_id (idempotency_key sha256 request) con.db.executions ≡ none
      → (x : Text) × (d.execution_id ≡ some x)
        × (first_id (idempotency_key sha256 request) con'.db.executions ≡ some x)
  unfolding grant_admission
  grant_admission-keys clock token request claims con con' d h free =
      let (_, h) = raise_if-ok _ integrity_error _ h in
      let (granted, done, h) =
        >>=-eq-ok
          (grant_claims sha256 nfc casefold clock token broker 0 (clock con.reads) _ claims
            con.db.resource_leases)
          _ h in
      subst
        (λ r.
          (x : Text) × (r.0.execution_id ≡ some x)
          × (first_id (idempotency_key sha256 request) r.1.db.executions ≡ some x))
        (ok_injective h)
        (
          codes "EX-" ++ prefix 24 (execution_identity sha256 request),
          refl,
          first_id-append (idempotency_key sha256 request) con.db.executions _ free refl,
        )

  -- What a call of `admit` that admits has left behind.
  abbrev Admitted : ExecutionRequest → Connection → AdmissionDecision → Type 0
  Admitted request con' d =
      (is_current request.authority_state ≡ true)
      × (x : Text) × (d.execution_id ≡ some x)
      × (first_id (idempotency_key sha256 request) con'.db.executions ≡ some x)

  abbrev Outcome : ExecutionRequest → AdmissionDecision × Connection → Type 0
  Outcome request r = r.0.outcome ≡ DecisionOutcome.admit → Admitted request r.1 r.0

  admit_claims-Outcome :
      (clock : ℕ → ℕ) (token : ℕ → Text) (request : ExecutionRequest) (con : Connection)
      (r : AdmissionDecision × Connection)
      → admit_claims sha256 nfc casefold clock token broker request con ≡ ok r
      → is_current request.authority_state ≡ true
      → first_id (idempotency_key sha256 request) con.db.executions ≡ none
      → Outcome request r
  unfolding admit_claims
  admit_claims-Outcome clock token request con r h current free =
      let (claims, found, h) =
        >>=-eq-ok (claims_of sha256 nfc casefold clock token broker request) _ h in
      let (checked, passed, h) =
        >>=-eq-ok (check_claims sha256 nfc casefold clock token broker request.task_id claims con) _
          h in
      let (keys, denied) =
        check_claims-keys clock token (idempotency_key sha256 request) request.task_id claims con
          checked.1 checked.0 passed in
      elim (Option-cases checked.0) [
        | inr (d, no_fit) ↦
            subst (Outcome request) (ok_injective (rw no_fit at h))
              (λ bad. absurd (denied d no_fit bad))
        | inl fit ↦
            (let (x, named, first) =
                grant_admission-keys clock token request claims checked.1 r.1 r.0 (rw fit at h)
                  (keys ∙ free) in
              λ admitted. (current, x, named, first))
      ]

  admit-Outcome :
      (clock : ℕ → ℕ) (token : ℕ → Text) (request : ExecutionRequest) (con : Connection)
      (r : AdmissionDecision × Connection)
      → admit sha256 nfc casefold clock token broker request con ≡ ok r
      → Outcome request r
  unfolding admit
  admit-Outcome clock token request con r h =
      elim (Bool-cases (is_current request.authority_state)) [
        | inr stale ↦ subst (Outcome request) (ok_injective (rw (admit, stale) at h)) (λ bad. cc)
        | inl current ↦
            elim (Option-cases (
              find (has_key (idempotency_key sha256 request))
                (expire_stale_leases clock con).db.executions)) [
                  | inr (duplicate, known) ↦
                      subst (Outcome request) (ok_injective (rw (admit, current, known) at h))
                        (λ bad. cc)
                  | inl new ↦
                      elim (Option-cases (
                        newest (
                          select (same_episode request)
                            (expire_stale_leases clock
                              (expire_stale_leases clock con)).db.executions))) [
                                | inr (prior, busy) ↦
                                    subst (Outcome request)
                                      (ok_injective (rw (admit, current, new, busy) at h))
                                      (λ bad. cc)
                                | inl idle ↦
                                    admit_claims-Outcome clock token request
                                      (expire_stale_leases clock (expire_stale_leases clock con)) r
                                      (rw (admit, current, new, idle) at h) current
                                      (first_id-expire_stale_leases _ clock
                                          (expire_stale_leases clock con)
                                        ∙ find-none (idempotency_key sha256 request)
                                            (expire_stale_leases clock con).db.executions new)
                              ]
                ]
      ]

  -- A request that was admitted is joined when it is made again, whatever the clock shows then: the
  -- answer names the same execution, and nothing but the expiry of leases has changed.
  pub admit_joins :
      (clock later : ℕ → ℕ) (token other : ℕ → Text) (request : ExecutionRequest)
      (con con' : Connection) (d : AdmissionDecision)
      → admit sha256 nfc casefold clock token broker request con ≡ ok (d, con')
      → d.outcome ≡ DecisionOutcome.admit
      → (e : AdmissionDecision) × (admit sha256 nfc casefold later other broker request con'
          ≡ ok (e, expire_stale_leases later con'))
        × (e.outcome ≡ DecisionOutcome.join_existing)
        × (e.joined_execution_id ≡ d.execution_id)
  unfolding admit
  admit_joins clock later token other request con con' d h admitted =
      let (current, x, named, first) = admit-Outcome clock token request con (d, con') h admitted in
      let (row, found, same) =
        find-first_id (idempotency_key sha256 request) x
          (expire_stale_leases later con').db.executions
          (first_id-expire_stale_leases _ later con' ∙ first) in
      (joined row, rw (admit, current, found) refl, refl, ap some same ∙ sym named)
