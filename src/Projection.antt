-- ===== src/Projection.antt =====
-- scripts/company_sqlite_projection_apply.py: the accepted items of a promotion receipt become rows of
-- `company_aggregate_projection`, once.
pub mod Promotion
pub mod Table
pub mod Apply
pub mod Replay
pub mod Atomic
mod Tests
