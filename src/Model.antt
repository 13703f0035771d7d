-- ===== src/Model.antt =====
-- The data model of walrusos/core/models and the cryptographic helpers of walrusos/core/crypto.py.
pub mod Value
pub mod Event
pub mod Identity
pub mod Crypto
