-- ===== src/Payment.antt =====
-- The payment applications of scripts/company_postgres_service.py: `_payment_text`,
-- `_payment_request` and `payment_application_command`.
pub mod Request
pub mod Transaction
pub mod Command
pub mod Idempotent
pub mod States
pub mod Progress
mod Sample
mod Tests
pub mod Transitions
pub mod Committed
pub mod Allowed
