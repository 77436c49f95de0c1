-- ===== src/Collector.antt =====
-- domain/collector.py and services/collector_service.py: the provider-neutral collector. A run folds
-- the events over the variables of `CollectorOrchestrator.run`. Sets of reasons are lists that are
-- read by membership, so the final sorting is left out; a point-in-time record is shown as what it
-- is made of. Prices stand as the texts that the serialiser would print.
mod Defs
pub mod Backoff
pub mod Step
pub mod Halted
pub mod Fresh
pub mod Redelivery
pub mod Permits
pub mod Drift
pub mod Feed
mod Examples
unfoldable pub use Defs.*
