-- ===== src/Security.antt =====
-- The package `mnema.security` (src/mnema/security).
pub mod Redaction
