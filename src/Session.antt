-- ===== src/Session.antt =====
-- src/session/session.service.ts: a timed video session, and the choices that follow it.
pub mod Decision
pub mod Lifecycle
pub mod Finalize
pub mod Choices
pub mod Once
pub mod Ended
pub mod Outcome
pub mod Kept
pub mod Agreement
pub mod Scan
pub mod Recovery
