-- ===== src/PodTask/Outcome.antt =====
-- The state and the result of a pod, which the code computes apart, agree.
use furiko.Prelude.{
  Bool, true, false, not, ◌||◌, ◌&&◌, Option, some, if◌then◌else◌, ◌≡◌, arith, is_some,
}
use furiko.Api.Job.{JobResult, TaskState}
use furiko.Api.Pod.{Pod}
use furiko.PodTask.Status.{
  get_result, is_finished, is_oom_killed, is_deadline_exceeded, is_killed_from_pending_timeout,
}

-- A pod has a result exactly if it is finished, or a container of it was killed for its memory, or
-- its reason is that of an exceeded deadline.
pub get_result-is_some :
    (p : Pod)
    → is_some (get_result p) ≡ (is_finished p || is_oom_killed p || is_deadline_exceeded p)
unfolding get_result is_finished is_killed_from_pending_timeout
get_result-is_some p = ground arith

abbrev is_failure_of : JobResult → Option JobResult → Bool
is_failure_of _ (some JobResult.task_failed) = true
is_failure_of JobResult.killed (some JobResult.killed) = true
is_failure_of JobResult.pending_timeout (some JobResult.pending_timeout) = true
is_failure_of JobResult.deadline_exceeded (some JobResult.deadline_exceeded) = true
is_failure_of _ _ = false

-- What stopped a pod that exceeded its deadline: killing a pod sets its deadline.
abbrev stopped_by : Bool → JobResult
stopped_by is_killed = if is_killed then JobResult.killed else JobResult.deadline_exceeded

-- The results that go with a state, for a pod with or without a kill timestamp.
abbrev pub agrees : Bool → TaskState → Option JobResult → Bool
agrees is_killed TaskState.staging r = not (is_some r)
agrees is_killed TaskState.starting r = not (is_some r)
agrees is_killed TaskState.running r = not (is_some r)
agrees is_killed TaskState.success (some JobResult.success) = true
agrees is_killed TaskState.success _ = false
agrees is_killed TaskState.failed (some JobResult.task_failed) = true
agrees is_killed TaskState.failed _ = false
agrees is_killed TaskState.pending_timeout r = is_failure_of JobResult.pending_timeout r
agrees is_killed TaskState.deadline_exceeded r = is_failure_of (stopped_by is_killed) r
agrees is_killed TaskState.killed r =
    is_killed && (is_failure_of JobResult.killed r || is_failure_of JobResult.pending_timeout r)
agrees is_killed TaskState.killing r =
    is_killed && (not (is_some r) || is_failure_of JobResult.killed r)
agrees is_killed _ r = false
