-- ===== src/Analytics.antt =====
-- The analytics events: src/analytics.
pub mod Values
pub mod Rows
pub mod Store
pub mod Counters
pub mod Fields
pub mod Ingest
pub mod Clean
pub mod Checked
pub mod Sound
pub mod Repeated
