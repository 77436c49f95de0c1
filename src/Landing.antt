-- ===== src/Landing.antt =====
-- services/raw_landing.py and ingest/local_landing.py: raw payloads behind authorization and
-- encryption.
mod Objects
mod Service
mod Keys
pub mod Sealed
pub mod ReadBack
mod Examples
unfoldable pub use Objects.*
unfoldable pub use Service.*
