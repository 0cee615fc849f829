-- ===== src/Jobs/Models.antt =====
-- The tables of src/mnema/jobs/models.py. A row is a record and a nullable column an `Option`; the
-- bookkeeping columns `created_at` and `updated_at`, which SQLAlchemy fills by their defaults and
-- no modelled operation reads, are left out.
pub mod Archive
pub mod Work
pub mod Cloud
pub mod FileProvider
