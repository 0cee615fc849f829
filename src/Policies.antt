-- ===== src/Policies.antt =====
-- The package `mnema.policies` (src/mnema/policies).
pub mod Deletion
pub mod Eligibility
