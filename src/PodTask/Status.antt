-- ===== src/PodTask/Status.antt =====
-- podtaskexecutor/pod_task.go: what a pod says of the task that it is, and when it ended.
use furiko.Prelude.{
  ℤ, Bool, true, false, not, ◌&&◌, [], ◌∷◌, Option, none, some, str_eq, if◌then◌else◌, is_some, any,
}
use furiko.Ktime.{
  Time, zero_time, is_zero, is_zero_ptr, is_time_set_and_earlier, of_unix, add, seconds,
}
use furiko.Decimal.{atoi}
use furiko.Meta.{lookup}
use furiko.Api.Meta.{
  label_key_task_retry_index, label_key_task_kill_timestamp, label_key_killed_from_pending_timeout,
}
use furiko.Api.Job.{JobResult, TaskState}
use furiko.Api.Pod.{Pod, PodPhase}
use furiko.PodTask.Util.{
  is_pod_condition_scheduled, get_termination_status, get_container_start_time,
  get_container_terminate_time,
}

abbrev pub is_pod_failed : PodPhase → Bool
is_pod_failed PodPhase.failed = true
is_pod_failed _ = false

abbrev is_pod_pending : PodPhase → Bool
is_pod_pending PodPhase.pending = true
is_pod_pending _ = false

unfoldable pub is_finished : Pod → Bool
is_finished p = elim p.status.phase [
  | PodPhase.succeeded ↦ true
  | PodPhase.failed ↦ true
  | _ ↦ false
]

unfoldable pub get_retry_index : Pod → Option ℤ
unfolding lookup atoi
get_retry_index p = elim (lookup label_key_task_retry_index p.metadata.labels) [
  | none ↦ none
  | some val ↦ atoi val
]

unfoldable pub requires_kill_with_deletion : Pod → Bool
unfolding is_pod_condition_scheduled
requires_kill_with_deletion p =
    is_pod_pending p.status.phase
    && not (is_pod_condition_scheduled p)
    && is_zero_ptr p.status.start_time

abbrev time_of_unix : Option ℤ → Option Time
time_of_unix none = none
time_of_unix (some s) = some (of_unix s)

unfoldable pub get_kill_timestamp : Pod → Option Time
unfolding lookup atoi of_unix
get_kill_timestamp p = elim (lookup label_key_task_kill_timestamp p.metadata.annotations) [
  | none ↦ none
  | some val ↦ time_of_unix (atoi val)
]

unfoldable pub get_killed_from_pending_timeout_marker : Pod → Bool
unfolding lookup
get_killed_from_pending_timeout_marker p =
    is_some (lookup label_key_killed_from_pending_timeout p.metadata.annotations)

unfoldable pub is_killed_from_pending_timeout : Pod → Bool
unfolding get_killed_from_pending_timeout_marker
is_killed_from_pending_timeout p =
    if is_pod_failed p.status.phase then get_killed_from_pending_timeout_marker p else false

unfoldable pub is_deadline_exceeded : Pod → Bool
is_deadline_exceeded p = str_eq p.status.reason "DeadlineExceeded"

unfoldable pub is_oom_killed : Pod → Bool
unfolding get_termination_status
is_oom_killed p =
    any
      (λ container. elim (get_termination_status container) [
        | none ↦ false
        | some status ↦ str_eq status.reason "OOMKilled"
      ])
      p.status.container_statuses

abbrev state_of_phase : Pod → TaskState
state_of_phase p = elim p.status.phase [
  | PodPhase.pending ↦ elim p.status.container_statuses [
    | [] ↦ TaskState.staging
    | ◌∷◌ _ _ ↦ TaskState.starting
  ]
  | PodPhase.running ↦ TaskState.running
  | PodPhase.succeeded ↦ TaskState.success
  | PodPhase.failed ↦ TaskState.failed
  | PodPhase.other _ ↦ TaskState.staging
]

abbrev state_without_kill : Pod → TaskState
state_without_kill p =
    if is_killed_from_pending_timeout p
    then TaskState.pending_timeout
    else if is_deadline_exceeded p
    then TaskState.deadline_exceeded
    else if is_oom_killed p
    then TaskState.failed
    else state_of_phase p

unfoldable pub get_state : Time → Pod → TaskState
unfolding is_finished get_kill_timestamp is_killed_from_pending_timeout is_deadline_exceeded
    is_oom_killed is_time_set_and_earlier
get_state now p =
    if is_time_set_and_earlier now (get_kill_timestamp p) && not (is_finished p)
    then TaskState.killing
    else if is_time_set_and_earlier now (get_kill_timestamp p)
        && is_pod_failed p.status.phase
        && is_deadline_exceeded p
    then TaskState.killed
    else state_without_kill p

abbrev result_of_phase : PodPhase → Option JobResult
result_of_phase PodPhase.succeeded = some JobResult.success
result_of_phase PodPhase.failed = some JobResult.task_failed
result_of_phase _ = none

unfoldable pub get_result : Pod → Option JobResult
unfolding get_kill_timestamp is_killed_from_pending_timeout is_deadline_exceeded is_oom_killed
get_result p =
    if is_oom_killed p
    then some JobResult.task_failed
    else if is_killed_from_pending_timeout p
    then some JobResult.pending_timeout
    else if is_deadline_exceeded p
    then (if is_zero_ptr (get_kill_timestamp p)
        then some JobResult.deadline_exceeded
        else some JobResult.killed)
    else result_of_phase p.status.phase

unfoldable pub get_running_timestamp : Pod → Time
unfolding get_container_start_time
get_running_timestamp p = get_container_start_time p

abbrev fallback_finish_time : Pod → Time
fallback_finish_time p = elim p.status.start_time [
  | none ↦ p.metadata.creation_timestamp
  | some t ↦ t
]

-- `p.Status.StartTime.Add(duration)`, which panics on a nil start time.
abbrev deadline_after : Option Time → ℤ → Option Time
deadline_after none ads = none
deadline_after (some t) ads = some (add t (seconds ads))

abbrev finish_without_container : Pod → Option ℤ → Option Time
finish_without_container p none = some (fallback_finish_time p)
finish_without_container p (some ads) =
    if is_deadline_exceeded p
    then deadline_after p.status.start_time ads
    else some (fallback_finish_time p)

-- `none` is a panic.
unfoldable pub get_finish_timestamp : Pod → Option Time
unfolding is_finished get_container_terminate_time is_deadline_exceeded add seconds
get_finish_timestamp p =
    if not (is_finished p)
    then some zero_time
    else if not (is_zero (get_container_terminate_time p))
    then some (get_container_terminate_time p)
    else finish_without_container p p.spec.active_deadline_seconds
