-- ===== src/Promotion.antt =====
-- validation/promotion_gate.py: the gate that a candidate model passes on a frozen holdout.
mod Criteria
mod Gate
pub mod Verdict
pub mod Preregistered
mod Examples
unfoldable pub use Criteria.*
unfoldable pub use Gate.*
