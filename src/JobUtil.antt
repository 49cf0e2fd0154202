-- ===== src/JobUtil.antt =====
-- pkg/execution/util/job: what the controllers ask of a Job and of its tasks.
pub mod Queries
pub mod Timeout
pub mod Condition
pub mod TaskRefs
pub mod Retries
