-- ===== src/Calendar.antt =====
-- domain/trading_calendar.py and ingest/calendar.py: the days and hours of trading.
mod Equity
mod Globex
pub mod Days
pub mod Week
mod Examples
unfoldable pub use Equity.*
unfoldable pub use Globex.*
