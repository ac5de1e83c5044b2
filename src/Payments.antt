-- ===== src/Payments.antt =====
-- src/payments/payments.service.ts: buying tokens.
pub mod Checkout
pub mod Webhook
pub mod Credit
pub mod Once
pub mod Ledger
