-- ===== src/Api.antt =====
-- The routes of backend/app/api over the database: what each request reads and writes. FastAPI checks a
-- request's shape before these run.
pub mod Paging
pub mod Scans
pub mod Scopes
pub mod Findings
pub mod Ledger
pub mod Integrity
