-- ===== src/Readiness.antt =====
-- domain/readiness.py and services/readiness.py: external evidence, the ledger of shadow sessions,
-- and the gate over both.
mod Evidence
mod Ledger
mod Gate
pub mod Integrity
pub mod Admission
pub mod Sessions
mod Examples
unfoldable pub use Evidence.*
unfoldable pub use Ledger.*
unfoldable pub use Gate.*
