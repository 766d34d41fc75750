-- ===== src/Identity.antt =====
-- Who asks: the assertions of identity that scripts/company_postgres_dev_gateway.py takes and makes, and
-- the handler of scripts/company_postgres_service.py that reads them.
pub mod Gateway
pub mod Handler
pub mod Roundtrip
pub mod Applicant
mod Tests
