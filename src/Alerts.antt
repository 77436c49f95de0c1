-- ===== src/Alerts.antt =====
-- domain/alerts.py and alerts/engine.py: the alert state machine.
mod Records
mod Engine
mod Validity
mod Raised
pub mod Escalation
mod Spacing
pub mod Reach
pub mod Streaks
pub mod Evidence
mod Examples
unfoldable pub use Records.*
unfoldable pub use Engine.*
