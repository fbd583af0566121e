-- ===== src/Models.antt =====
-- The shared vocabulary (backend/app/models).
pub mod Domain
pub mod Findings
