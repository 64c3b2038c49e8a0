-- ===== src/Broker.antt =====
-- tools/host_execution_broker and the write-path grammar that it uses.
pub mod WritePaths
pub mod Models
pub mod Dumps
pub mod Request
pub mod Process
pub mod Store
pub mod Rules
pub mod Admission
pub mod Lifecycle
pub mod Exclusion
mod Samples
