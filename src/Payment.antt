-- ===== src/Payment.antt =====
-- internal/payment: the states of a payment.
pub mod State
pub mod Lifecycle
