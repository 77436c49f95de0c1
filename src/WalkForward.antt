-- ===== src/WalkForward.antt =====
-- validation/walk_forward.py: the purged walk-forward split.
mod Folds
mod Groups
pub mod Leakage
pub mod Termination
mod Examples
unfoldable pub use Folds.*
