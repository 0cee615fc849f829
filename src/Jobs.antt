-- ===== src/Jobs.antt =====
-- The package `mnema.jobs` (src/mnema/jobs): the rows that outlive a process, the service that
-- moves an item from state to state, and the queue.
pub mod Models
pub mod StateService
pub mod Queue
