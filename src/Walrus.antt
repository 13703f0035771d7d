-- ===== src/Walrus.antt =====
-- The storage adapter of walrusos/adapters/walrus.py: encrypted blobs on the Walrus network, the
-- large ones in chunks.
pub mod Network
pub mod Crypt
pub mod Adapter
pub mod Sealed
pub mod Chunks
pub mod Stored
pub mod Retrieved
pub mod Roundtrip
pub mod Shredded
