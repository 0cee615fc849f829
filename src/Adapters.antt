-- ===== src/Adapters.antt =====
-- The adapters to storage (src/mnema/adapters).
pub mod FileOps
