-- ===== src/Projection.antt =====
-- walrusos/core/projections/engine.py, and the replays of walrusos/engine/event_store.py that fold
-- it. A projection is a fold of the event log into an agent's identity or a workspace's state.
pub mod Agent
pub mod Workspace
pub mod Counters
pub mod Consistent
pub mod Capabilities
pub mod TrustRoot
