-- ===== src/Queue.antt =====
-- src/queue: the waiting users of each queue, and the worker that pairs them.
pub mod City
pub mod Entry
pub mod Lock
pub mod Join
pub mod Leave
pub mod Pairs
pub mod Worker
pub mod Tokens
pub mod Exclusion
pub mod Refund
pub mod Visit
pub mod Pairing
pub mod Untouched
pub mod Rounds
