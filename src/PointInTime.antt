-- ===== src/PointInTime.antt =====
-- domain/point_in_time.py, services/replay.py and ingest/pit_ledger.py: facts that are kept as they
-- were first seen, and their replay as of an instant. A stored timestamp is a UTC instant.
mod Records
mod Replay
pub mod LookAhead
pub mod View
pub mod Replays
pub mod Identity
pub mod Batches
mod Examples
pub mod Batch
unfoldable pub use Records.*
unfoldable pub use Replay.*
