-- ===== src/Recovery.antt =====
-- walrusos/engine/recovery.py: `DisasterRecoveryEngine.recover`. The headers come from the network
-- and the blobs from the storage; an event is written to the local ledger only if its checks pass.
pub mod Engine
pub mod Sound
pub mod Forged
