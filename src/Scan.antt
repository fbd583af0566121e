-- ===== src/Scan.antt =====
-- Running scans (backend/app/scan).
pub mod Governor
pub mod Bucket
pub mod Events
pub mod Concurrency
pub mod Runner
pub mod Writes
pub mod Execution
