-- ===== src/Tasks.antt =====
-- pkg/execution/tasks/interfaces.go. What the methods of a Task answer is a record; the methods that
-- write, SetKillTimestamp and SetKilledFromPendingTimeoutMarker, are requests to the API server and
-- stand in JobController.
use furiko.Prelude.{ℤ, Bool, Option, String}
use furiko.Ktime.{Time}
use furiko.Api.Job.{TaskRef}

pub record Task : Type 0 where
  pub name : String
  pub task_ref : TaskRef
  pub kind : String
  pub retry_index : Option ℤ
  pub requires_kill_with_deletion : Bool
  pub kill_timestamp : Option Time
  pub killed_from_pending_timeout_marker : Bool
  pub deletion_timestamp : Option Time
