-- ===== src/Auth.antt =====
-- src/auth/auth.service.ts: the refresh tokens.
pub mod Age
pub mod Refresh
pub mod Rotation
pub mod Reuse
pub mod Verification
pub mod Account
pub mod Deletion
pub mod Forgotten
pub mod Confirmed
