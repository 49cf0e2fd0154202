-- ===== src/JobUtil/Queries.antt =====
-- pkg/execution/util/job: active.go, job_utils.go and task_utils.go.
use furiko.Prelude.{
  ℤ, pos, Bool, true, false, not, ◌&&◌, ◌||◌, List, [], ◌∷◌, Option, none, some, String,
  if◌then◌else◌, any, last?, is_some, is_none, leb_ℤ, ltb_ℤ,
}
use furiko.Ktime.{Time, Duration, is_zero_ptr, zero_time, seconds, add, unwrap_meta_v1_time}
use furiko.Meta.{lookup, insert}
use furiko.Api.Meta.{label_key_admission_error_message}
use furiko.Api.Job.{Job, JobResult, JobTemplateSpec, TaskRef, is_terminal}
use furiko.Tasks.{Task}

unfoldable pub is_started : Job → Bool
is_started rj = not (is_zero_ptr rj.status.start_time)

unfoldable pub is_queued : Job → Bool
unfolding is_started is_terminal
is_queued rj = not (is_started rj) && not (is_terminal rj.status.phase)

unfoldable pub is_active : Job → Bool
unfolding is_started is_terminal
is_active rj = is_started rj && not (is_terminal rj.status.phase)

unfoldable pub mark_admission_error : Job → String → Job
mark_admission_error rj msg = record rj {
  metadata = record (rj.metadata) {
    annotations = insert label_key_admission_error_message msg rj.metadata.annotations;
  };
}

unfoldable pub get_admission_error_message : Job → Option String
get_admission_error_message rj = lookup label_key_admission_error_message rj.metadata.annotations

abbrev pub is_unfinished : TaskRef → Bool
is_unfinished task = is_zero_ptr task.finish_timestamp

abbrev pub is_success_result : Option JobResult → Bool
is_success_result (some JobResult.success) = true
is_success_result _ = false

abbrev pub is_success : TaskRef → Bool
is_success task = is_success_result task.status.result

unfoldable pub has_active_task : Job → Bool
has_active_task rj = any is_unfinished rj.status.tasks

unfoldable pub has_success_task : Job → Bool
has_success_task rj = any is_success rj.status.tasks

abbrev max_attempts_of : Option JobTemplateSpec → ℤ
max_attempts_of none = pos 1
max_attempts_of (some template) = elim (template.max_attempts) [ none ↦ pos 1 | some n ↦ n ]

unfoldable pub get_max_allowed_tasks : Job → ℤ
get_max_allowed_tasks rj = max_attempts_of rj.spec.template

unfoldable pub allowed_to_create_new_task : Job → Bool
allowed_to_create_new_task rj =
    if is_some (get_admission_error_message rj)
    then false
    else if has_active_task rj || has_success_task rj
    then false
    else if leb_ℤ (get_max_allowed_tasks rj) rj.status.created_tasks
    then false
    else not (is_some rj.spec.kill_timestamp)

unfoldable pub is_task_finished : Task → Bool
is_task_finished task = not (is_zero_ptr task.task_ref.finish_timestamp)

unfoldable pub is_task_active : Task → Bool
unfolding is_task_finished
is_task_active task = not (is_task_finished task) && is_none task.deletion_timestamp

unfoldable pub contains_active_task : List Task → Bool
contains_active_task tasks = any is_task_active tasks

-- The two errors of GetNextAllowedRetry.
pub data RetryError : Type 0 where
  not_allowed not_yet_finished : RetryError

pub data NextRetry : Type 0 where
  at : Time → NextRetry
  error : RetryError → NextRetry

-- `none` is the early return for a delay that is not set.
abbrev retry_delay : Option JobTemplateSpec → Option Duration
retry_delay none = some (pos 0)
retry_delay (some template) = elim (template.retry_delay_seconds) [
  | none ↦ none
  | some n ↦ if leb_ℤ n (pos 0) then none else some (seconds n)
]

abbrev retry_after : Duration → Option TaskRef → NextRetry
retry_after delay none = at zero_time
retry_after delay (some last_task) =
    if is_unfinished last_task
    then error not_yet_finished
    else at (add (unwrap_meta_v1_time last_task.finish_timestamp) delay)

unfoldable pub get_next_allowed_retry : Job → NextRetry
get_next_allowed_retry rj =
    if not (allowed_to_create_new_task rj)
    then error not_allowed
    else elim (retry_delay rj.spec.template) [
      | none ↦ at zero_time
      | some delay ↦ retry_after delay (last? rj.status.tasks)
    ]

abbrev pub retry_index_max : ℤ → Option ℤ → ℤ
retry_index_max m none = m
retry_index_max m (some index) = if ltb_ℤ m index then index else m

unfoldable pub max_task_retry_index_from : ℤ → List Task → ℤ
max_task_retry_index_from m [] = m
max_task_retry_index_from m (task ∷ tasks) =
    max_task_retry_index_from (retry_index_max m task.retry_index) tasks

unfoldable pub max_task_retry_index : List Task → ℤ
unfolding max_task_retry_index_from
max_task_retry_index tasks = max_task_retry_index_from (pos 0) tasks
