-- ===== src/Kernel.antt =====
-- tools/durable_mission_kernel: one module for each Python module.
pub mod Schemas
pub mod Reducers
pub mod Canonical
pub mod Verifier
pub mod Tables
pub mod Ledger
pub mod Endurance
pub mod Lease
pub mod Effects
pub mod Protocols
