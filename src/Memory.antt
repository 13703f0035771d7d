-- ===== src/Memory.antt =====
-- walrusos/engine/memory.py: `MemoryEngine`, over the in-memory adapters.
pub mod State
pub mod Append
pub mod Read
pub mod Branch
pub mod Restore
