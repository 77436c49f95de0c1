-- ===== src/Domain.antt =====
-- src/marketpilot/domain: the value types that the services share.
pub mod Snapshot
pub mod Chain
pub mod Governance
