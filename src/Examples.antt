-- ===== src/Examples.antt =====
-- The theorems at concrete inputs: an appliance with one photograph, its jobs and its devices.
pub mod Data
mod Policies
mod Storage
mod Archive
mod Jobs
mod Access
mod Discovery
mod Health
mod Uploads
mod Cleanup
