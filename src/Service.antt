-- ===== src/Service.antt =====
-- The parts that every command of scripts/company_postgres_service.py shares.
pub mod Merge
pub mod Rows
pub mod Quoting
pub mod Database
pub mod Settled
pub mod Exceptions
pub mod Attempt
pub mod Pool
pub mod Command
pub mod Kept
