-- ===== src/Matches.antt =====
-- src/matches: who sees whose profile, and when.
pub mod Reveal
pub mod Service
pub mod Listed
pub mod Acknowledge
