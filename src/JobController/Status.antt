-- ===== src/JobController/Status.antt =====
-- pkg/execution/controllers/jobcontroller: UpdateJobStatusFromTaskRefs of reconciler.go and the tests
-- of util.go.
use furiko.Prelude.{
  Bool, not, ◌&&◌, Option, none, some, String, if◌then◌else◌, is_none, is_some, List,
}
use furiko.Ktime.{Time, is_zero_ptr, sub, add, seconds}
use furiko.Meta.{contains_finalizer}
use furiko.Api.Job.{Job, JobResult, JobCondition, JobConditionRunning, JobConditionWaiting, literal}
use furiko.JobUtil.Condition.{get_condition, get_phase, finished_with}
use furiko.JobUtil.TaskRefs.{update_job_task_refs}
use furiko.JobController.Writes.{Log, enqueue}
use furiko.Tasks.{Task}

unfoldable pub is_deleted : Job → Bool
is_deleted rj = not (is_zero_ptr rj.metadata.deletion_timestamp)

unfoldable pub is_finalized : Job → String → Bool
unfolding is_deleted
is_finalized rj finalizer =
    is_deleted rj && not (contains_finalizer rj.metadata.finalizers finalizer)

-- `createdAt` and `startedAt` for a Job that is deleted before it is finished.
record KilledTimes : Type 0 where
  created_at : Time
  started_at : Option Time

abbrev running_times : Time → Option JobConditionRunning → KilledTimes
running_times now none = record { created_at = now; started_at = none }
running_times now (some running) = record {
  created_at = running.created_at;
  started_at = some running.started_at;
}

abbrev waiting_created_at : Option JobConditionWaiting → Option Time
waiting_created_at none = none
waiting_created_at (some waiting) = waiting.created_at

abbrev killed_times : Time → JobCondition → KilledTimes
killed_times now condition = elim (waiting_created_at condition.waiting) [
  | some created ↦ record { created_at = created; started_at = none }
  | none ↦ running_times now condition.running
]

abbrev killed_condition : KilledTimes → JobCondition
killed_condition times = finished_with (record {
  created_at = some times.created_at;
  started_at = times.started_at;
  finished_at = times.created_at;
  result = JobResult.killed;
  reason = "";
  message = literal "";
})

unfoldable pub final_condition : Time → Job → JobCondition
final_condition now rj =
    let condition = get_condition now rj in
    if is_some rj.metadata.deletion_timestamp && is_none condition.finished
    then killed_condition (killed_times now condition)
    else condition

unfoldable pub update_job_status_from_task_refs : Time → Job → Job
unfolding final_condition
update_job_status_from_task_refs now rj =
    let new_rj = record rj { status = record (rj.status) { condition = final_condition now rj } } in
    record new_rj { status = record (new_rj.status) { phase = get_phase now new_rj } }

-- The later sync that deletes a finished Job. The code reads the clock again for it.
abbrev pub enqueue_ttl : Time → Job → Log → Log
enqueue_ttl now rj log = if is_deleted rj then log else elim rj.status.condition.finished [
  | none ↦ log
  | some finished ↦ elim rj.spec.ttl_seconds_after_finished [
    | none ↦ log
    | some ttl ↦ enqueue (sub (add finished.finished_at (seconds ttl)) now) log
  ]
]

-- The events that syncJobStatusFromTaskRefs records are left out.
unfoldable pub sync_job_status_from_task_refs : Time → Job → Log → Job × Log
unfolding update_job_status_from_task_refs is_deleted enqueue
sync_job_status_from_task_refs now rj log =
    let new_rj = update_job_status_from_task_refs now rj in (new_rj, enqueue_ttl now new_rj log)

unfoldable pub update_task_ref_status : Time → Job → List Task → Log → Job × Log
unfolding sync_job_status_from_task_refs
update_task_ref_status now rj tasks log =
    sync_job_status_from_task_refs now (update_job_task_refs now rj tasks) log
