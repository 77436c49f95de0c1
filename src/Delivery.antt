-- ===== src/Delivery.antt =====
-- domain/alert_delivery.py, services/alert_delivery_store.py and services/alert_delivery_service.py:
-- the append-only outbox of alerts and its coordinator. The SQLite tables are lists in the order of
-- insertion; the ORDER BY of a query is a stable sort. Locks, JSON round trips and the field
-- patterns that pydantic tests are not modelled.
mod Defs
mod Store
mod Service
mod Calls
pub mod Requests
pub mod Final
pub mod Guarded
pub mod Retries
mod Examples
unfoldable pub use Defs.*
unfoldable pub use Store.*
unfoldable pub use Calls.*
unfoldable pub use Service.*
