-- ===== src/Config.antt =====
-- What the environment and the stored flags decide: src/common/security-config.ts,
-- src/auth/roles.guard.ts and src/flags/flags.service.ts.
pub mod Secrets
pub mod Roles
pub mod Flags
