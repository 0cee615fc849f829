-- ===== src/Worker.antt =====
-- The package `mnema.worker` (src/mnema/worker).
pub mod Recovery
pub mod Main
pub mod Start
