-- ===== src/Quality.antt =====
-- domain/data_quality.py: the evaluator of quotes.
mod Observations
mod Evaluator
mod Tallies
pub mod Clean
pub mod Quote
mod Examples
unfoldable pub use Observations.*
unfoldable pub use Evaluator.*
