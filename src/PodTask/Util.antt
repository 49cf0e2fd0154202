-- ===== src/PodTask/Util.antt =====
-- podtaskexecutor/util.go: the conditions of a pod, and when its containers started and ended.
use furiko.Prelude.{Bool, true, false, List, [], ◌∷◌, Option, none, some, if◌then◌else◌}
use furiko.Ktime.{Time, zero_time, is_unix_zero, time_max}
use furiko.Api.Pod.{
  Pod, PodCondition, PodConditionType, ConditionStatus, ContainerStatus, ContainerState,
  ContainerStateTerminated,
}

-- The first condition that passes a test.
abbrev find_condition : (PodConditionType → Bool) → List PodCondition → Option PodCondition
find_condition test [] = none
find_condition test (condition ∷ rest) =
    if test condition.condition_type then some condition else find_condition test rest

abbrev is_pod_scheduled_type : PodConditionType → Bool
is_pod_scheduled_type PodConditionType.pod_scheduled = true
is_pod_scheduled_type _ = false

abbrev is_initialized_type : PodConditionType → Bool
is_initialized_type PodConditionType.initialized = true
is_initialized_type _ = false

unfoldable pub get_pod_condition_scheduled : Pod → Option PodCondition
get_pod_condition_scheduled pod = find_condition is_pod_scheduled_type pod.status.conditions

unfoldable pub get_pod_condition_initialized : Pod → Option PodCondition
get_pod_condition_initialized pod = find_condition is_initialized_type pod.status.conditions

abbrev pub is_condition_true : ConditionStatus → Bool
is_condition_true ConditionStatus.true_status = true
is_condition_true _ = false

abbrev pub is_condition_false : ConditionStatus → Bool
is_condition_false ConditionStatus.false_status = true
is_condition_false _ = false

unfoldable pub is_pod_condition_scheduled : Pod → Bool
unfolding get_pod_condition_scheduled
is_pod_condition_scheduled pod = elim (get_pod_condition_scheduled pod) [
  | none ↦ false
  | some condition ↦ is_condition_true condition.status
]

unfoldable pub get_termination_status : ContainerStatus → Option ContainerStateTerminated
get_termination_status container = elim container.state.terminated [
  | none ↦ container.last_termination_state.terminated
  | some status ↦ some status
]

-- `t = *ktime.TimeMax(&ts, &t)` where a time is set.
abbrev later_of : Time → Time → Time
later_of ts t =
    if is_unix_zero ts
    then t
    else elim (time_max (some ts) (some t)) [ none ↦ t | some latest ↦ latest ]

abbrev start_time_of : ContainerState → Time → Time
start_time_of state t =
    let t' : Time = elim state.running [ none ↦ t | some status ↦ later_of status.started_at t ] in
    elim state.terminated [ none ↦ t' | some status ↦ later_of status.started_at t' ]

-- The loops over the container statuses, from the time found so far.
unfoldable pub container_start_time : List ContainerStatus → Time → Time
unfolding is_unix_zero time_max
container_start_time [] t = t
container_start_time (container ∷ rest) t =
    container_start_time rest (start_time_of container.state t)

unfoldable pub get_container_start_time : Pod → Time
unfolding container_start_time
get_container_start_time pod = container_start_time pod.status.container_statuses zero_time

unfoldable pub latest_end : ContainerStatus → Time → Time
unfolding is_unix_zero time_max get_termination_status
latest_end container t = elim (get_termination_status container) [
  | none ↦ t
  | some status ↦ later_of status.finished_at t
]

unfoldable pub container_terminate_time : List ContainerStatus → Time → Time
unfolding latest_end
container_terminate_time [] t = t
container_terminate_time (container ∷ rest) t =
    container_terminate_time rest (latest_end container t)

unfoldable pub get_container_terminate_time : Pod → Time
unfolding container_terminate_time
get_container_terminate_time pod = container_terminate_time pod.status.container_statuses zero_time
