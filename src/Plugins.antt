-- ===== src/Plugins.antt =====
-- src/main/plugins, the ledgers that main keeps, and src/shared/plugins/lifecycle.ts.
pub mod RuntimeLedger
pub mod Lifecycle
pub mod Heartbeat
pub mod RequestLedger
