-- ===== src/Mobile.antt =====
-- The state that the app keeps: src/verity-mobile/src/hooks.
pub mod Decision
pub mod Waiting
pub mod OneChoice
pub mod Consistent
