-- ===== src/Gate.antt =====
-- scripts/company_migration_cutover_gate.py: the decision over the migration evidence.
pub mod Check
pub mod Scope
pub mod Control
pub mod Replay
pub mod Run
pub mod Soundness
pub mod Exception
pub mod Cleared
mod Tests
