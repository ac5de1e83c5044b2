-- ===== src/Telemetry.antt =====
-- The stage gates and their alerts: src/telemetry.
pub mod Percentile
pub mod Rank
pub mod Metrics
pub mod Tallied
pub mod Gates
pub mod Snapshot
pub mod Alerts
pub mod Sustained
pub mod Views
pub mod Tick
