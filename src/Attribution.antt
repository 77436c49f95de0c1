-- ===== src/Attribution.antt =====
-- services/stream_attribution_service.py, services/stream_attribution_store.py and
-- domain/attribution.py: the tasks of attribution and their reviews.
mod Reviews
pub mod Final
mod Examples
unfoldable pub use Reviews.*
