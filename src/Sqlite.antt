-- ===== src/Sqlite.antt =====
-- The SQLite ledger of walrusos/adapters/sqlite_ledger.py. A table is a dict from the primary key
-- to the row, in the order of the rows; a query is a filter of the rows, with a stable sort for
-- ORDER BY. A session that ends without a commit leaves the tables as they were.
pub mod Tables
pub mod Streams
pub mod Order
pub mod Log
pub mod Rows
pub mod Refine
pub mod Protocol
pub mod Found
pub mod InMemory
pub mod Agree
pub mod Identities
pub mod Mappings
pub mod Tasks
pub mod Replayed
pub mod Kept
pub mod Stored
