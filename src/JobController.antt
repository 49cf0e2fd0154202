-- ===== src/JobController.antt =====
-- pkg/execution/controllers/jobcontroller: the reconciler of Jobs and their tasks.
pub mod Status
pub mod Writes
pub mod Creation
pub mod Killing
pub mod Deleting
pub mod Finalizing
pub mod Sync
pub mod Reaping
pub mod Attempts
pub mod Lifecycle
