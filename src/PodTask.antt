-- ===== src/PodTask.antt =====
-- pkg/execution/taskexecutor/podtaskexecutor: tasks that are Pods.
pub mod Util
pub mod Status
pub mod Reason
pub mod Ref
pub mod Kill
pub mod Create
pub mod Outcome
pub mod Timestamps
