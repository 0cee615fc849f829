-- ===== src/Diagnostics.antt =====
-- The package `mnema.diagnostics` (src/mnema/diagnostics).
pub mod Health
