-- ===== src/PodTask/Ref.antt =====
-- podtaskexecutor/pod_task.go: the ref of a task, and a pod as a Task of the Job controller.
use furiko.Prelude.{pos, List, map, Option, none, some, if◌then◌else◌}
use furiko.Ktime.{Time, is_zero}
use furiko.Api.Job.{TaskRef, TaskContainerState}
use furiko.Api.Pod.{Pod, ContainerStatus}
use furiko.Tasks.{Task}
use furiko.PodTask.Status.{
  get_retry_index, requires_kill_with_deletion, get_kill_timestamp,
  get_killed_from_pending_timeout_marker, get_state, get_result, get_running_timestamp,
  get_finish_timestamp,
}
use furiko.PodTask.Reason.{get_reason_message}

abbrev container_state_of : ContainerStatus → TaskContainerState
container_state_of container = elim container.state.terminated [
  | none ↦ record {
    exit_code = pos 0;
    signal = pos 0;
    reason = "";
    message = "";
    container_id = container.container_id;
  }
  | some status ↦ record {
    exit_code = status.exit_code;
    signal = status.signal;
    reason = status.reason;
    message = status.message;
    container_id = container.container_id;
  }
]

unfoldable pub get_container_states : Pod → List TaskContainerState
get_container_states p = map container_state_of p.status.container_statuses

abbrev unless_zero : Time → Option Time
unless_zero t = if is_zero t then none else some t

-- `none` is the panic of GetFinishTimestamp.
unfoldable pub get_task_ref : Time → Pod → Option TaskRef
unfolding get_reason_message get_state get_result get_container_states get_running_timestamp
    get_finish_timestamp
get_task_ref now p = elim (get_finish_timestamp p) [
  | none ↦ none
  | some finish ↦
      let (reason, message) = get_reason_message p in
      some (record {
        name = p.metadata.name;
        creation_timestamp = p.metadata.creation_timestamp;
        running_timestamp = unless_zero (get_running_timestamp p);
        finish_timestamp = unless_zero finish;
        status = record {
          state = get_state now p;
          result = get_result p;
          reason = reason;
          message = message;
        };
        deleted_status = none;
        node_name = p.spec.node_name;
        container_states = get_container_states p;
      })
]

-- What the methods of a PodTask answer, as the Task that the Job controller works with.
unfoldable pub new_pod_task : Time → Pod → Option Task
unfolding get_task_ref get_retry_index requires_kill_with_deletion get_kill_timestamp
    get_killed_from_pending_timeout_marker
new_pod_task now p = elim (get_task_ref now p) [
  | none ↦ none
  | some ref ↦ some (record {
    name = p.metadata.name;
    task_ref = ref;
    kind = "Pod";
    retry_index = get_retry_index p;
    requires_kill_with_deletion = requires_kill_with_deletion p;
    kill_timestamp = get_kill_timestamp p;
    killed_from_pending_timeout_marker = get_killed_from_pending_timeout_marker p;
    deletion_timestamp = p.metadata.deletion_timestamp;
  })
]
