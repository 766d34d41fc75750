-- ===== src/Production.antt =====
-- The checks of the production manifests: scripts/company_production_deployment_check.py and
-- scripts/company_production_service_check.py.
pub mod Manifest
pub mod Deployment
pub mod Service
pub mod Gated
pub mod Approvals
pub mod Pool
mod Tests
