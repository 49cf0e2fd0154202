-- ===== src/JobUtil/Condition.antt =====
-- pkg/execution/util/job/condition.go and phase.go.
use furiko.Prelude.{
  ℤ, pos, ◌+◌, Bool, not, Option, none, some, String, if◌then◌else◌, length, last?, ltb_ℤ, is_some,
}
use furiko.Ktime.{Time, is_zero_ptr, is_zero, is_time_set_and_earlier, unwrap_meta_v1_time}
use furiko.Api.Job.{
  Job, JobResult, JobPhase, JobCondition, JobConditionFinished, JobConditionRunning,
  JobConditionWaiting, JobConditionQueueing, ConcurrencyPolicy, StartPolicySpec, TaskRef, literal,
  sprintf_time, sprintf_counts,
}
use furiko.JobUtil.Queries.{
  get_admission_error_message, allowed_to_create_new_task, get_max_allowed_tasks,
}

abbrev no_condition : JobCondition
no_condition = record { queueing = none; waiting = none; running = none; finished = none }

abbrev pub finished_with : JobConditionFinished → JobCondition
finished_with f = record no_condition { finished = some f }

abbrev pub waiting_with : JobConditionWaiting → JobCondition
waiting_with w = record no_condition { waiting = some w }

abbrev pub running_with : JobConditionRunning → JobCondition
running_with r = record no_condition { running = some r }

abbrev pub queueing_with : JobConditionQueueing → JobCondition
queueing_with q = record no_condition { queueing = some q }

-- The old finish time, if one was set.
abbrev pub admission_error_time : Time → Option JobConditionFinished → Time
admission_error_time now none = now
admission_error_time now (some old) = if is_zero old.finished_at then now else old.finished_at

abbrev pub admission_error_condition : Time → Option JobConditionFinished → String → JobCondition
admission_error_condition now old message = finished_with (record {
  created_at = none;
  started_at = none;
  finished_at = admission_error_time now old;
  result = JobResult.admission_error;
  reason = "AdmissionError";
  message = literal message;
})

abbrev is_enqueue : ConcurrencyPolicy → Bool
is_enqueue ConcurrencyPolicy.enqueue = Bool.true
is_enqueue _ = Bool.false

abbrev empty_queueing : JobConditionQueueing
empty_queueing = record { reason = ""; message = literal "" }

queueing_of : Option StartPolicySpec → JobConditionQueueing
queueing_of none = empty_queueing
queueing_of (some spec) =
    if not (is_zero_ptr spec.start_after)
    then record {
      reason = "NotYetDue";
      message =
          sprintf_time "Job is queued to start no earlier than %v"
            (unwrap_meta_v1_time spec.start_after);
    }
    else if is_enqueue spec.concurrency_policy
    then record {
      reason = "Queued";
      message = literal "Job is queued and may be pending other concurrent jobs to be finished";
    }
    else empty_queueing

-- The branch for a Job with no tasks.
abbrev no_tasks_condition : Option Time → JobCondition
no_tasks_condition kill_timestamp =
    if not (is_zero_ptr kill_timestamp)
    then finished_with (record {
      created_at = none;
      started_at = none;
      finished_at = unwrap_meta_v1_time kill_timestamp;
      result = JobResult.killed;
      reason = "";
      message = literal "";
    })
    else waiting_with (record { created_at = none; reason = ""; message = literal "" })

abbrev retry_backoff_condition : Job → TaskRef → JobCondition
retry_backoff_condition rj latest_task = waiting_with (record {
  created_at = some latest_task.creation_timestamp;
  reason = "RetryBackoff";
  message =
      sprintf_counts "Waiting to create new task (retrying %v out of %v)"
        (pos (length rj.status.tasks + 1)) (get_max_allowed_tasks rj);
})

abbrev result_or_empty : Option JobResult → JobResult
result_or_empty none = JobResult.other ""
result_or_empty (some result) = result

abbrev set_or_nil : Option Time → Option Time
set_or_nil ts = if is_zero_ptr ts then none else ts

abbrev task_finished_condition : TaskRef → JobCondition
task_finished_condition latest_task = finished_with (record {
  created_at = some latest_task.creation_timestamp;
  started_at = set_or_nil latest_task.running_timestamp;
  finished_at = unwrap_meta_v1_time latest_task.finish_timestamp;
  result = result_or_empty latest_task.status.result;
  reason = latest_task.status.reason;
  message = literal latest_task.status.message;
})

-- The branches for the latest task.
abbrev latest_task_condition : Job → TaskRef → JobCondition
latest_task_condition rj latest_task =
    if not (is_zero_ptr latest_task.finish_timestamp)
    then (if allowed_to_create_new_task rj
        then retry_backoff_condition rj latest_task
        else task_finished_condition latest_task)
    else if not (is_zero_ptr latest_task.running_timestamp)
    then running_with (record {
      created_at = latest_task.creation_timestamp;
      started_at = unwrap_meta_v1_time latest_task.running_timestamp;
    })
    else waiting_with (record {
      created_at = some latest_task.creation_timestamp;
      reason = latest_task.status.reason;
      message = literal latest_task.status.message;
    })

unfoldable pub get_condition : Time → Job → JobCondition
unfolding queueing_of
get_condition now rj = elim (get_admission_error_message rj) [
  | some message ↦ admission_error_condition now rj.status.condition.finished message
  | none ↦
      if is_zero_ptr rj.status.start_time
      then queueing_with (queueing_of rj.spec.start_policy)
      else elim (last? rj.status.tasks) [
        | none ↦ no_tasks_condition rj.spec.kill_timestamp
        | some latest_task ↦ latest_task_condition rj latest_task
      ]
]

unfoldable pub phase_of_result : JobResult → JobPhase
phase_of_result JobResult.success = JobPhase.succeeded
phase_of_result JobResult.task_failed = JobPhase.retry_limit_exceeded
phase_of_result JobResult.pending_timeout = JobPhase.pending_timeout
phase_of_result JobResult.killed = JobPhase.killed
phase_of_result JobResult.deadline_exceeded = JobPhase.deadline_exceeded
phase_of_result JobResult.admission_error = JobPhase.admission_error
phase_of_result JobResult.final_state_unknown = JobPhase.finished_unknown
phase_of_result (JobResult.other s) = JobPhase.finished_unknown

abbrev waiting_phase : ℤ → Option TaskRef → JobPhase
waiting_phase created_tasks none = JobPhase.starting
waiting_phase created_tasks (some latest_task) =
    if not (is_zero_ptr latest_task.finish_timestamp)
    then JobPhase.retry_backoff
    else if ltb_ℤ (pos 1) created_tasks
    then JobPhase.retrying
    else JobPhase.pending

unfoldable pub get_phase : Time → Job → JobPhase
unfolding phase_of_result
get_phase now rj = elim (rj.status.condition.finished) [
  | some finished ↦ phase_of_result finished.result
  | none ↦
      if is_time_set_and_earlier now rj.spec.kill_timestamp
      then JobPhase.killing
      else if is_some rj.status.condition.running
      then JobPhase.running
      else if is_some rj.status.condition.waiting
      then waiting_phase rj.status.created_tasks (last? rj.status.tasks)
      else JobPhase.queued
]
