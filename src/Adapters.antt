-- ===== src/Adapters.antt =====
-- The adapters of walrusos/adapters/in_memory.py.
pub mod Storage
pub mod Ledger
pub mod Vector
