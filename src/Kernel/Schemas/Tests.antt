-- ===== src/Kernel/Schemas/Tests.antt =====
-- Runs of the write-surface tests of schemas.py.
use second_brain_coordinatio.Prelude.{Text, codes, ◌≡◌, refl, true, strip_suffix}
use second_brain_coordinatio.Kernel.Schemas.{is_protected_path}

governance_protected : is_protected_path (codes "coordination/GOVERNANCE/x.yaml") ≡ true
unfolding is_protected_path strip_suffix
governance_protected = refl

-- The path leaves the tree by its segments `..`, and counts as authorized all the same.
abbrev escaping : Text
escaping = codes "tools\\durable_mission_kernel/../../coordination/GOVERNANCE/x"
