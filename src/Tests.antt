-- ===== src/Tests.antt =====
-- Concrete servers and inputs, and the theorems at them.
pub mod Memory
pub mod Worlds
pub mod Events
pub mod TelemetryTests
pub mod AnalyticsTests
pub mod QueueTests
pub mod SessionTests
pub mod PaymentTests
pub mod MatchTests
pub mod ModerationTests
pub mod AuthTests
pub mod NotificationTests
pub mod ConfigTests
pub mod VideoTests
pub mod MobileTests
