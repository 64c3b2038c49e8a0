-- ===== src/Kernel/Effects.antt =====
-- tools/durable_mission_kernel/effects.py: `EffectLedger`. The two dicts share their records, so
-- the records live in a store under numbers. Clock readings are arguments.
mod Laws
mod Tests
use second_brain_coordinatio.Prelude.{
  ℕ, zero, suc, ◌+◌, Text, codes, text_eq, Bool, true, false, not, ◌&&◌, Option, none, some, List,
  [], ◌∷◌, ◌++◌, Result, ok, err, ◌>>=◌, ◌>>◌, raise_if, Dict, lookup, insert, length, ltb, leb,
  any, mem_text, slashes, if◌then◌else◌,
}
use second_brain_coordinatio.Kernel.Schemas.{surface_matches}
use second_brain_coordinatio.Kernel.Canonical.Json.{Value, str, obj, end, field}

-- `EffectStatus`
pub data EffectStatus : Type 0 where
  pending executed outcome_unknown : EffectStatus

pub record BudgetEnvelope : Type 0 where
  pub max_wall_time_ms : ℕ
  pub max_episode_ms : ℕ
  pub max_retries : ℕ
  pub max_effects : ℕ
  pub allowed_paths : List Text
  pub forbidden_actions : List Text

pub record EffectRecord : Type 0 where
  pub effect_id : Text
  pub mission_id : Text
  pub idempotency_key : Text
  pub status : EffectStatus
  pub attempts : ℕ
  pub created_at : ℕ
  pub executed_at : Option ℕ
  pub outcome : Option Value

pub data EffectsError : Type 0 where
  max_effects_reached max_wall_time max_episode : EffectsError
  forbidden_action key_error : Text → EffectsError

pub record EffectLedger : Type 0 where
  pub budget : BudgetEnvelope
  pub heap : List EffectRecord
  -- from a mission and an idempotency key to the address of a record
  pub by_key : List (Text × Text × ℕ)
  pub by_id : Dict ℕ
  pub count : ℕ

unfoldable pub new_ledger : BudgetEnvelope → EffectLedger
new_ledger b = record { budget = b; heap = []; by_key = []; by_id = []; count = 0 }

-- `self._by_key.get((mission_id, idempotency_key))`
unfoldable pub lookup_key : Text → Text → List (Text × Text × ℕ) → Option ℕ
lookup_key m k [] = none
lookup_key m k ((n, j, a) ∷ d) = if text_eq n m && text_eq j k then some a else lookup_key m k d

-- `self._by_key[(mission_id, idempotency_key)] = rec`
unfoldable pub insert_key : Text → Text → ℕ → List (Text × Text × ℕ) → List (Text × Text × ℕ)
insert_key m k a [] = (m, k, a) ∷ []
insert_key m k a ((n, j, b) ∷ d) =
    let rest = insert_key m k a d in
    if text_eq n m && text_eq j k then (m, k, a) ∷ d else (n, j, b) ∷ rest

unfoldable pub fetch : ℕ → List EffectRecord → Option EffectRecord
fetch a [] = none
fetch zero (r ∷ rs) = some r
fetch (suc a) (r ∷ rs) = fetch a rs

unfoldable pub update : ℕ → (EffectRecord → EffectRecord) → List EffectRecord → List EffectRecord
update a f [] = []
update zero f (r ∷ rs) = f r ∷ rs
update (suc a) f (r ∷ rs) = r ∷ update a f rs

-- The new record of `register`, under both keys.
unfoldable pub add_record : ℕ → Text → Text → Text → EffectLedger → EffectLedger
add_record now effect_id m k l = record l {
  heap =
      l.heap
      ++ record {
        effect_id = effect_id;
        mission_id = m;
        idempotency_key = k;
        status = EffectStatus.pending;
        attempts = 0;
        created_at = now;
        executed_at = none;
        outcome = none;
      }
        ∷ [];
  by_key = insert_key m k (length l.heap) l.by_key;
  by_id = insert effect_id (length l.heap) l.by_id;
  count = l.count + 1;
}

-- The address of the record, and the ledger.
unfoldable pub register :
    ℕ → Text → Text → Text → EffectLedger → Result EffectsError (ℕ × EffectLedger)
unfolding add_record lookup_key
register now effect_id m k l = elim (lookup_key m k l.by_key) [
  | some existing ↦ ok (existing, l)
  | none ↦ (do
    raise_if (leb l.budget.max_effects l.count) max_effects_reached
    ok (length l.heap, add_record now effect_id m k l))
]

abbrev pub or_key_error : Text → Option ℕ → Result EffectsError ℕ
or_key_error k none = err (key_error k)
or_key_error k (some a) = ok a

unfoldable pub mark_executed :
    ℕ → Text → Option Value → EffectLedger → Result EffectsError EffectLedger
unfolding update
mark_executed now effect_id outcome l = do
  a ← or_key_error effect_id (lookup effect_id l.by_id)
  ok (record l {
    heap =
        update a
          (λ r. record r {
            attempts = r.attempts + 1;
            status = EffectStatus.executed;
            executed_at = some now;
            outcome = outcome;
          })
          l.heap;
  })

unfoldable pub mark_outcome_unknown : Text → Text → EffectLedger → Result EffectsError EffectLedger
unfolding update
mark_outcome_unknown effect_id reason l = do
  a ← or_key_error effect_id (lookup effect_id l.by_id)
  ok (record l {
    heap =
        update a
          (λ r. record r {
            attempts = r.attempts + 1;
            status = EffectStatus.outcome_unknown;
            outcome = some (obj (field (codes "reason") (str reason) end));
          })
          l.heap;
  })

unfoldable pub check_budget : ℕ → ℕ → EffectLedger → Result EffectsError Unit
check_budget elapsed_wall_ms elapsed_episode_ms l = do
  raise_if (ltb l.budget.max_wall_time_ms elapsed_wall_ms) max_wall_time
  raise_if (ltb l.budget.max_episode_ms elapsed_episode_ms) max_episode

unfoldable pub forbid_action : Text → EffectLedger → Result EffectsError Unit
forbid_action action l =
    raise_if (mem_text action l.budget.forbidden_actions) (forbidden_action action)

-- An empty list of paths allows every path.
unfoldable pub is_path_allowed : Text → EffectLedger → Bool
unfolding surface_matches
is_path_allowed path l = elim l.budget.allowed_paths [
  | [] ↦ true
  | prefix ∷ prefixes ↦ any (surface_matches (slashes path)) (prefix ∷ prefixes)
]
