-- ===== src/Sdk.antt =====
-- The clients of walrusos/sdk: agents that write to streams, and streams that are read.
pub mod Agent
pub mod Stream
pub mod Replayed
pub mod Written
pub mod Status
