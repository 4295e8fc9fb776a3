-- ===== src/Payment.antt =====
-- app/services/payment.py: the B402 merchant core, and its theorems.
pub mod Types
pub mod Validators
pub mod Challenge
pub mod Envelope
pub mod Verify
pub mod Broadcast
