-- ===== src/Guard.antt =====
-- The boundary to the scanned hosts (backend/app/guard).
pub mod Ranges
pub mod Ledger
pub mod Scope
pub mod Resolver
pub mod ScanGuard
pub mod Connect
pub mod Stream
