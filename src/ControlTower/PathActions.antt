-- ===== src/ControlTower/PathActions.antt =====
-- path_action_constraints.py and path_action_policy.py: which paths a worker may change, and how.
pub mod Findings
pub mod Patterns
pub mod Constraints
pub mod Diff
pub mod Contract
pub mod Policy
pub mod Lineage
pub mod Surface
pub mod Sound
pub mod Anchored
pub mod Parsed
pub mod Main
pub mod Gate
pub mod Checked
mod Tests
