-- ===== src/FileProvider.antt =====
-- The package `mnema.file_provider` (src/mnema/file_provider).
pub mod Auth
pub mod Items
pub mod Uploads
pub mod Sealing
pub mod Completion
