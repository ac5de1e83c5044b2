-- ===== src/Services.antt =====
-- The servers that the backend talks to, and the state that its handlers share.
pub mod Redis
pub mod Database
pub mod Numbers
