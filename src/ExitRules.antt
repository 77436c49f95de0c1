-- ===== src/ExitRules.antt =====
-- validation/exit_rules.py: how a position is closed under an exit rule, and the parts of
-- validation/condor_economics.py that it uses.
mod Condor
mod Simulate
pub mod Reference
pub mod Hindsight
mod Examples
unfoldable pub use Condor.*
unfoldable pub use Simulate.*
