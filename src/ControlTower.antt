-- ===== src/ControlTower.antt =====
-- The control tower of coordination/CONTROL-TOWER.
pub mod Values
pub mod Lifecycle
pub mod PathActions
