-- ===== src/Config.antt =====
-- The package `mnema.config` (src/mnema/config).
pub mod Settings
pub mod Options
pub mod Validation
