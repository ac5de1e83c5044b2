-- ===== src/Moderation.antt =====
-- src/moderation/moderation.service.ts: blocks, reports, violations and appeals.
pub mod Blocks
pub mod Reports
pub mod Violations
pub mod Appeals
pub mod Bans
pub mod Appealed
pub mod Blocked
pub mod Limits
pub mod Signature
pub mod Hex
pub mod Signed
pub mod Replay
