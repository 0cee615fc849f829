-- ===== src/Domain.antt =====
-- The package `mnema.domain` (src/mnema/domain).
pub mod States
pub mod Source
pub mod Storage
pub mod Protocols
pub mod Workflow
pub mod Removal
pub mod Discovery
pub mod ICloudCleanup
