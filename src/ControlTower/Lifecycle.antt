-- ===== src/ControlTower/Lifecycle.antt =====
-- worker_lifecycle.py: the lifecycle of a worker slot, from the canonical projection and from
-- advisory evidence.
mod Tests
pub mod States
pub mod Projection
pub mod Evidence
pub mod Resolution
pub mod Schema
pub mod Registry
