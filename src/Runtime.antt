-- ===== src/Runtime.antt =====
-- walrusos/runtime: the event mesh, the presence store with its sessions, and the agent registry.
pub mod Pattern
pub mod Mesh
pub mod Session
pub mod Presence
pub mod Registry
