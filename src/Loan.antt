-- ===== src/Loan.antt =====
-- The loans of scripts/company_postgres_service.py that employees take and pay back by offsets.
pub mod Checks
pub mod Create
pub mod Request
pub mod Transaction
pub mod Command
pub mod Balance
pub mod Written
pub mod Changes
pub mod Fit
pub mod Admission
pub mod Ledger
pub mod Account
pub mod Authority
pub mod Offsets
pub mod Sample
pub mod Tests
