-- ===== src/Tests.antt =====
-- Concrete runs: the theorems at inputs that meet their hypotheses, and tests by evaluation.
pub mod Data
pub mod Json
pub mod Walrus
pub mod Projection
pub mod Adapters
pub mod Replay
pub mod Recovery
pub mod Memory
pub mod Runtime
pub mod TimeTravel
pub mod EventStore
pub mod Coordinator
pub mod Tasks
pub mod Sqlite
pub mod Context
pub mod Keys
pub mod Sdk
