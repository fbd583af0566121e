-- ===== src/Tests.antt =====
-- Concrete inputs for the theorems of the library.
pub mod Lab
mod Guarding
mod Governing
mod Running
mod Serving
mod Probing
mod Routing
mod Reading
mod Reporting
