-- ===== src/Services.antt =====
-- The services over the database and the CVE providers (backend/app/services).
pub mod Retention
pub mod Cache
pub mod Outbound
pub mod Scans
pub mod Json
pub mod Kev
pub mod Nvd
pub mod Reports
