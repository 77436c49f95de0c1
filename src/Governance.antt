-- ===== src/Governance.antt =====
-- src/marketpilot/governance: the registry of frozen champions.
pub mod Registry
