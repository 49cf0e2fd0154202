-- ===== src/PodTask/Reason.antt =====
-- podtaskexecutor/pod_task.go: the reason and message of a task, from the first source that has both.
use furiko.Prelude.{
  Bool, not, ◌&&◌, ◌||◌, List, [], ◌∷◌, Option, none, some, String, str_eq, str_append,
  if◌then◌else◌, is_empty,
}
use furiko.Decimal.{itoa}
use furiko.Api.Pod.{
  Pod, PodCondition, ContainerStatus, ContainerState, ContainerStateTerminated,
  ContainerStateWaiting,
}
use furiko.PodTask.Util.{
  get_pod_condition_scheduled, get_pod_condition_initialized, is_condition_false,
}

unfoldable pub has_reason_message : String → String → Bool
has_reason_message reason message = not (is_empty reason) && not (is_empty message)

unfoldable pub get_default_message_for_termination : ContainerStateTerminated → String
unfolding itoa
get_default_message_for_termination status =
    if str_eq status.reason "OOMKilled" || str_eq status.reason "Error"
    then str_append "Container exited with status " (itoa status.exit_code)
    else ""

abbrev ReasonMessage : Type 0
ReasonMessage = String × String

-- `none` goes on to the next source.
abbrev reason_of_condition : Option PodCondition → Option ReasonMessage
reason_of_condition none = none
reason_of_condition (some condition) =
    if is_condition_false condition.status && has_reason_message condition.reason condition.message
    then some (condition.reason, condition.message)
    else none

abbrev reason_of_waiting : Option ContainerStateWaiting → Option ReasonMessage
reason_of_waiting none = none
reason_of_waiting (some state) =
    if has_reason_message state.reason state.message
    then some (state.reason, state.message)
    else none

abbrev reason_of_terminated : Option ContainerStateTerminated → Option ReasonMessage
reason_of_terminated none = none
reason_of_terminated (some state) =
    let message =
      if is_empty state.message then get_default_message_for_termination state else state.message in
    if has_reason_message state.reason message then some (state.reason, message) else none

abbrev or_else : Option ReasonMessage → Option ReasonMessage → Option ReasonMessage
or_else none next = next
or_else (some r) next = some r

abbrev first_reason :
    (ContainerState → Option ReasonMessage) → List ContainerStatus → Option ReasonMessage
first_reason f [] = none
first_reason f (container ∷ rest) = or_else (f container.state) (first_reason f rest)

abbrev reason_of_containers : (ContainerState → Option ReasonMessage) → Pod → Option ReasonMessage
reason_of_containers f p =
    or_else (first_reason f p.status.container_statuses)
      (first_reason f p.status.init_container_statuses)

abbrev reason_of_pod : Pod → Option ReasonMessage
reason_of_pod p =
    if not (is_empty p.status.reason) && not (is_empty p.status.message)
    then some (p.status.reason, p.status.message)
    else none

abbrev found_or_empty : Option ReasonMessage → ReasonMessage
found_or_empty none = ("", "")
found_or_empty (some r) = r

unfoldable pub get_reason_message : Pod → ReasonMessage
unfolding get_pod_condition_scheduled get_pod_condition_initialized has_reason_message
    get_default_message_for_termination
get_reason_message p = found_or_empty (
    or_else (reason_of_pod p) (
      or_else (reason_of_condition (get_pod_condition_scheduled p)) (
        or_else (reason_of_condition (get_pod_condition_initialized p)) (
          or_else (reason_of_containers (λ state. reason_of_waiting state.waiting) p)
            (reason_of_containers (λ state. reason_of_terminated state.terminated) p)))))
