-- ===== src/Kernel/Effects/Tests.antt =====
-- A ledger of effects with a cap of one, and with no retry allowed.
use second_brain_coordinatio.Prelude.{
  ℕ, ◌+◌, ◌≤◌, Text, codes, none, some, List, [], ◌∷◌, ◌≡◌, refl, ok, lookup, length,
}
use second_brain_coordinatio.Kernel.Effects.{
  BudgetEnvelope, EffectStatus, EffectLedger, EffectRecord, new_ledger, fetch, register, add_record,
}
use second_brain_coordinatio.Kernel.Effects.Laws.{
  Op, register_effect, run, marks, run_count, marks_attempts,
}

abbrev one_effect : BudgetEnvelope
one_effect = record {
  max_wall_time_ms = 1000;
  max_episode_ms = 100;
  max_retries = 0;
  max_effects = 1;
  allowed_paths = [];
  forbidden_actions = [];
}

abbrev one_record : EffectLedger
one_record = add_record 5 (codes "e1") (codes "m") (codes "k") (new_ledger one_effect)

registers :
    register 5 (codes "e1") (codes "m") (codes "k") (new_ledger one_effect) ≡ ok (0, one_record)
unfolding register new_ledger
registers = refl

abbrev two_calls : List Op
two_calls =
    register_effect 5 (codes "e1") (codes "m") (codes "k")
    ∷ register_effect 6 (codes "e2") (codes "m") (codes "j")
    ∷ []

run_count_example :
    let l = run two_calls (new_ledger one_effect) in
    (l.count ≤ 1) × (l.count ≡ length l.heap) × (l.count ≡ length l.by_key)
run_count_example = run_count one_effect two_calls

abbrev pending : EffectRecord
pending = record {
  effect_id = codes "e1";
  mission_id = codes "m";
  idempotency_key = codes "k";
  status = EffectStatus.pending;
  attempts = 0;
  created_at = 5;
  executed_at = none;
  outcome = none;
}

known : lookup (codes "e1") one_record.by_id ≡ some 0
unfolding add_record new_ledger lookup second_brain_coordinatio.Prelude.insert
known = refl

stored : fetch 0 one_record.heap ≡ some pending
unfolding add_record new_ledger fetch
stored = refl

-- Three executions, where the budget allows no retry.
marks_attempts_example :
    (l' : EffectLedger) × (r' : EffectRecord) × (marks 3 7 (codes "e1") one_record ≡ ok l')
    × (fetch 0 l'.heap ≡ some r')
    × (r'.attempts ≡ 0 + 3)
marks_attempts_example = marks_attempts 3 7 (codes "e1") one_record 0 pending known stored
