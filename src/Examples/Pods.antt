-- ===== src/Examples/Pods.antt =====
-- The theorems on pods, for a pod that is killed after it was started.
use furiko.Prelude.{
  ℤ, pos, ◌≡◌, refl, ◌≤ℤ◌, ◌*ℤ◌, ◌+ℤ◌, ◌-ℤ◌, true, false, not, ◌&&◌, [], ◌∷◌, some, none, is_some,
  arith,
}
use furiko.Ktime.{Time, add, second, is_zero, unix}
use furiko.Meta.{lookup}
use furiko.Decimal.{atoi}
use furiko.Api.Meta.{label_key_task_kill_timestamp}
use furiko.Api.Job.{TaskRef}
use furiko.Api.Pod.{Pod, PodPhase, ContainerStatus, ContainerState}
use furiko.PodTask.Util.{get_container_terminate_time}
use furiko.PodTask.Status.{is_finished, get_kill_timestamp, is_deadline_exceeded, get_retry_index}
use furiko.PodTask.Ref.{get_task_ref}
use furiko.PodTask.Create.{new_pod}
use furiko.PodTask.Kill.{
  with_kill_timestamp, at_most_previous, with_kill_timestamp-deadline,
  with_kill_timestamp-never_later, with_kill_timestamp-accurate,
}
use furiko.PodTask.Timestamps.{IsStamped, get_task_ref-is_some, get_task_ref-finished}
use furiko.PodTask.Create.{get_retry_index-new_pod}
use furiko.Samples.{at_second, metadata, pod_spec, created_job}

abbrev ended_state : ContainerState
ended_state = record {
  waiting = none;
  running = none;
  terminated = some (record {
    exit_code = pos 137;
    signal = pos 9;
    reason = "OOMKilled";
    message = "";
    started_at = at_second 12;
    finished_at = at_second 40;
  });
}

abbrev ended_container : ContainerStatus
ended_container = record {
  container_id = "container-1";
  state = ended_state;
  last_termination_state = ended_state;
}

abbrev running_pod : Pod
running_pod = record {
  metadata = metadata;
  spec = pod_spec;
  status = record {
    phase = PodPhase.running;
    reason = "";
    message = "";
    start_time = some (at_second 10);
    conditions = [];
    container_statuses = [];
    init_container_statuses = [];
  };
}

abbrev killed_pod : Pod
killed_pod = record running_pod {
  metadata = record metadata { annotations = (label_key_task_kill_timestamp, "1640995230") ∷ [] };
}

abbrev failed_pod : Pod
failed_pod = record running_pod {
  status = record (running_pod.status) {
    phase = PodPhase.failed;
    container_statuses = ended_container ∷ [];
  };
}

with_kill_timestamp-deadline_example :
    (ads : ℤ) × ((with_kill_timestamp running_pod (at_second 30)).spec.active_deadline_seconds
      ≡ some ads)
    × (pos 1 ≤ℤ ads)
    × (at_most_previous none ads ≡ true)
with_kill_timestamp-deadline_example = with_kill_timestamp-deadline running_pod (at_second 30)

killed_at : get_kill_timestamp killed_pod ≡ some (at_second 30)
unfolding get_kill_timestamp lookup atoi ◌+ℤ◌ ◌*ℤ◌
killed_at = refl

with_kill_timestamp-never_later_example :
    (t' : Time) × (get_kill_timestamp (with_kill_timestamp killed_pod (at_second 60)) ≡ some t')
    × (t' ≤ℤ at_second 30)
unfolding unix ◌-ℤ◌
with_kill_timestamp-never_later_example =
    with_kill_timestamp-never_later killed_pod (at_second 60) (at_second 30)
      (record { above = omega arith; below = omega arith }) killed_at refl

with_kill_timestamp-accurate_example :
    (ads : ℤ) × ((with_kill_timestamp running_pod
        (add (at_second 10) (pos 20_500_000_000))).spec.active_deadline_seconds
      ≡ some ads)
    × (add (at_second 10) (pos 20_500_000_000) ≤ℤ add (at_second 10) (ads *ℤ second +ℤ second))
    × (add (at_second 10) (ads *ℤ second) ≤ℤ add (add (at_second 10) (pos 20_500_000_000)) second)
unfolding get_kill_timestamp lookup
with_kill_timestamp-accurate_example =
    with_kill_timestamp-accurate running_pod (at_second 10) 20_500_000_000 refl refl refl
      (omega arith)

get_task_ref-is_some_example :
    is_some (get_task_ref (at_second 50) failed_pod)
    ≡ not (
        is_finished failed_pod
        && is_zero (get_container_terminate_time failed_pod)
        && false
        && is_deadline_exceeded failed_pod
        && false)
get_task_ref-is_some_example = get_task_ref-is_some (at_second 50) failed_pod

failed_pod-IsStamped : IsStamped failed_pod
failed_pod-IsStamped = record { created = omega arith; started = omega arith; limited = tt }

get_task_ref-finished_example :
    (ref : TaskRef) × (get_task_ref (at_second 50) failed_pod ≡ some ref)
    × (is_some ref.finish_timestamp ≡ is_finished failed_pod)
unfolding get_task_ref ◌-ℤ◌
get_task_ref-finished_example =
    (_, refl, get_task_ref-finished (at_second 50) failed_pod _ failed_pod-IsStamped refl)

get_retry_index-new_pod_example : get_retry_index (new_pod created_job (pos 2)) ≡ some (pos 2)
get_retry_index-new_pod_example =
    get_retry_index-new_pod created_job (pos 2)
      (record { above = omega arith; below = omega arith })
