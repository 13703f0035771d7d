-- ===== src/Replay.antt =====
-- walrusos/engine/replay.py: `ReplayEngine`. The blob id test is in `BlobId`, the tracked keys and
-- capabilities in `Tracker`, the loop in `Engine`; the other modules prove what the loop keeps.
pub mod BlobId
pub mod Tracker
pub mod Engine
pub mod Genuine
pub mod Held
pub mod Sound
pub mod Access
pub mod Fetch
