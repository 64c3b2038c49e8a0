-- ===== src/Kernel/Effects/Laws.antt =====
-- Idempotent registration, the cap on the number of effects, and what a mark changes.
use Prim.Native.Nat.{zero-le}
use second_brain_coordinatio.Prelude.{
  ℕ, zero, suc, ◌+◌, ◌≤◌, Text, text_eq_refl, Option, none, some, List, [], ◌∷◌, ◌≡◌, refl, Result,
  ok, err, ◌>>=◌, lookup, length, length-append, arith, Option-cases, inl, inr,
}
use second_brain_coordinatio.Kernel.Canonical.Json.{Value}
use second_brain_coordinatio.Kernel.Effects.{
  EffectStatus, BudgetEnvelope, EffectRecord, EffectsError, EffectLedger, new_ledger, lookup_key,
  insert_key, fetch, update, add_record, register, mark_executed, mark_outcome_unknown,
}

lookup_key-insert_key :
    (m k : Text) (a : ℕ) (d : List (Text × Text × ℕ)) → lookup_key m k (insert_key m k a d) ≡ some a
unfolding lookup_key insert_key
lookup_key-insert_key m k a [] = ground (arith, text_eq_refl m, text_eq_refl k)
lookup_key-insert_key m k a ((n, j, b) ∷ d) =
    ground (arith, lookup_key-insert_key m k a d, text_eq_refl m, text_eq_refl k)

-- A key that is new goes to the end of the dict.
length-insert_key :
    (m k : Text) (a : ℕ) (d : List (Text × Text × ℕ))
    → lookup_key m k d ≡ none
    → length (insert_key m k a d) ≡ length d + 1
unfolding lookup_key insert_key
length-insert_key m k a [] h = refl
length-insert_key m k a ((n, j, b) ∷ d) h = ground (arith, length-insert_key m k a d)

-- Registering a key again returns the record that it has, whatever the effect id, and changes
-- nothing.
pub register_idem :
    (now later : ℕ) (e f m k : Text) (l : EffectLedger) (r : ℕ × EffectLedger)
    → register now e m k l ≡ ok r
    → register later f m k r.1 ≡ ok r
unfolding register add_record
register_idem now later e f m k l r h = elim (Option-cases (lookup_key m k l.by_key)) [
  | inr (a, known) ↦ ground arith
  | inl new ↦ ground (arith, lookup_key-insert_key m k (length l.heap) l.by_key)
]

pub data Op : Type 0 where
  register_effect : (now : ℕ) (effect_id mission_id idempotency_key : Text) → Op
  executed_effect : (now : ℕ) (effect_id : Text) (outcome : Option Value) → Op
  unknown_effect : (effect_id reason : Text) → Op

abbrev after : EffectLedger → Result EffectsError EffectLedger → EffectLedger
after l (ok l') = l'
after l (err e) = l

unfoldable pub perform : Op → EffectLedger → EffectLedger
perform (register_effect now e m k) l = after l (do r ← register now e m k l; ok r.1)
perform (executed_effect now e o) l = after l (mark_executed now e o l)
perform (unknown_effect e reason) l = after l (mark_outcome_unknown e reason l)

unfoldable pub run : List Op → EffectLedger → EffectLedger
unfolding perform
run [] l = l
run (op ∷ ops) l = run ops (perform op l)

record IsBounded (b : BudgetEnvelope) (l : EffectLedger) : Type 0 where
  same_budget : l.budget ≡ b
  within : l.count ≤ b.max_effects
  counted : l.count ≡ length l.heap
  keyed : l.count ≡ length l.by_key

length-update :
    (a : ℕ) (f : EffectRecord → EffectRecord) (rs : List EffectRecord)
    → length (update a f rs) ≡ length rs
unfolding update
length-update a f [] = refl
length-update zero f (r ∷ rs) = refl
length-update (suc a) f (r ∷ rs) = omega (arith, length-update a f rs)

register-IsBounded :
    (b : BudgetEnvelope) (now : ℕ) (e m k : Text) (l : EffectLedger)
    → IsBounded b l
    → IsBounded b (perform (register_effect now e m k) l)
unfolding perform register add_record
register-IsBounded b now e m k l s = elim (Option-cases (lookup_key m k l.by_key)) [
  | inr (a, known) ↦ rw (perform, register, known) s
  | inl new ↦ grind (arith, length-append, length-insert_key m k (length l.heap) l.by_key new)
]

executed-IsBounded :
    (b : BudgetEnvelope) (now : ℕ) (e : Text) (o : Option Value) (l : EffectLedger)
    → IsBounded b l
    → IsBounded b (perform (executed_effect now e o) l)
unfolding perform mark_executed
executed-IsBounded b now e o l s = grind (arith, length-update)

unknown-IsBounded :
    (b : BudgetEnvelope) (e reason : Text) (l : EffectLedger)
    → IsBounded b l
    → IsBounded b (perform (unknown_effect e reason) l)
unfolding perform mark_outcome_unknown
unknown-IsBounded b e reason l s = grind (arith, length-update)

run-IsBounded :
    (b : BudgetEnvelope) (ops : List Op) (l : EffectLedger)
    → IsBounded b l
    → IsBounded b (run ops l)
unfolding run
run-IsBounded b [] l s = s
run-IsBounded b (register_effect now e m k ∷ ops) l s =
    run-IsBounded b ops _ (register-IsBounded b now e m k l s)
run-IsBounded b (executed_effect now e o ∷ ops) l s =
    run-IsBounded b ops _ (executed-IsBounded b now e o l s)
run-IsBounded b (unknown_effect e reason ∷ ops) l s =
    run-IsBounded b ops _ (unknown-IsBounded b e reason l s)

-- After any calls on a new ledger, the count is that of the records and that of the keys, and it
-- is at most the cap of the budget.
pub run_count :
    (b : BudgetEnvelope) (ops : List Op)
    → let l = run ops (new_ledger b) in
      (l.count ≤ b.max_effects) × (l.count ≡ length l.heap) × (l.count ≡ length l.by_key)
unfolding new_ledger
run_count b ops =
    let s =
      run-IsBounded b ops (new_ledger b)
        (record { same_budget = refl; within = zero-le; counted = refl; keyed = refl }) in
    (s.within, s.counted, s.keyed)

fetch-update :
    (a : ℕ) (f : EffectRecord → EffectRecord) (rs : List EffectRecord) {r : EffectRecord}
    → fetch a rs ≡ some r
    → fetch a (update a f rs) ≡ some (f r)
unfolding fetch update
fetch-update a f [] h = cc
fetch-update zero f (x ∷ rs) h = cc
fetch-update (suc a) f (x ∷ rs) h = fetch-update a f rs h

-- Calls of `mark_executed` on one effect, one after the other.
abbrev pub marks : ℕ → ℕ → Text → EffectLedger → Result EffectsError EffectLedger
marks zero now e l = ok l
marks (suc n) now e l = do l' ← mark_executed now e none l; marks n now e l'

-- Marking a known effect as executed never fails, whatever `max_retries` is, and each call adds one
-- attempt: `n` calls add `n`.
pub marks_attempts :
    (n now : ℕ) (e : Text) (l : EffectLedger) (a : ℕ) (r : EffectRecord)
    → lookup e l.by_id ≡ some a
    → fetch a l.heap ≡ some r
    → (l' : EffectLedger) × (r' : EffectRecord) × (marks n now e l ≡ ok l')
      × (fetch a l'.heap ≡ some r')
      × (r'.attempts ≡ r.attempts + n)
unfolding mark_executed
marks_attempts zero now e l a r known at = (l, r, refl, at, omega arith)
marks_attempts (suc n) now e l a r known at =
    let (l', r', done, at', counted) =
      marks_attempts n now e
        (record l {
          heap =
              update a
                (λ x. record x {
                  attempts = x.attempts + 1;
                  status = EffectStatus.executed;
                  executed_at = some now;
                  outcome = none;
                })
                l.heap;
        })
        a _ known (fetch-update a _ l.heap at) in
    (l', r', rw known done, at', omega (arith, counted))
