-- ===== src/Samples.antt =====
-- Small Jobs, tasks and times for the tests and examples.
use furiko.Prelude.{ℕ, ◌*◌, ◌+◌, ℤ, pos, List, [], ◌∷◌, none, some, false}
use furiko.Ktime.{Time, nanoseconds_per_second}
use furiko.Api.Meta.{ObjectMeta, label_key_job_config_uid, delete_dependents_finalizer}
use furiko.Api.Job.{
  Job, JobSpec, JobCondition, JobTemplateSpec, JobPhase, JobType, JobResult, TaskRef, TaskState,
  TaskStatus,
}
use furiko.Api.Job.{ConcurrencyPolicy}
use furiko.Api.JobConfig.{JobConfig, JobConfigState}
use furiko.Tasks.{Task}
use furiko.Api.Pod.{PodSpec, PodTemplateSpec}

-- An instant some seconds after the start of the year 2022.
abbrev pub at_second : ℕ → Time
at_second n = pos ((63_776_592_000 + n) * nanoseconds_per_second)

abbrev pub metadata : ObjectMeta
metadata = record {
  name = "job-1";
  namespace = "default";
  uid = "uid-job-1";
  labels = (label_key_job_config_uid, "uid-config-1") ∷ [];
  annotations = [];
  finalizers = delete_dependents_finalizer ∷ [];
  owner_references = [];
  creation_timestamp = at_second 0;
  deletion_timestamp = none;
}

abbrev pub pod_spec : PodSpec
pod_spec = record {
  init_containers = [];
  containers =
      record { image = "alpine"; env = []; command = []; args = "${job.name}" ∷ []; rest = "" }
      ∷ [];
  restart_policy = "Never";
  node_name = "";
  active_deadline_seconds = none;
  rest = "";
}

abbrev pub pod_template : PodTemplateSpec
pod_template = record { labels = []; annotations = []; finalizers = []; spec = pod_spec }

abbrev pub template : JobTemplateSpec
template = record {
  task = record {
    template = pod_template;
    pending_timeout_seconds = none;
    forbid_force_deletion = false;
  };
  max_attempts = some (pos 3);
  retry_delay_seconds = some (pos 30);
}

abbrev pub spec : JobSpec
spec = record {
  config_name = "config-1";
  job_type = JobType.adhoc;
  start_policy = none;
  template = some template;
  option_values = "";
  substitutions = [];
  kill_timestamp = none;
  ttl_seconds_after_finished = none;
}

abbrev pub no_condition : JobCondition
no_condition = record { queueing = none; waiting = none; running = none; finished = none }

-- A Job that was just created.
abbrev pub created_job : Job
created_job = record {
  metadata = metadata;
  spec = spec;
  status = record {
    phase = JobPhase.other "";
    condition = no_condition;
    start_time = none;
    created_tasks = pos 0;
    tasks = [];
  };
}

abbrev pub running_status : TaskStatus
running_status = record { state = TaskState.running; result = none; reason = ""; message = "" }

abbrev pub success_status : TaskStatus
success_status = record running_status {
  state = TaskState.success;
  result = some JobResult.success;
}

abbrev pub failed_status : TaskStatus
failed_status = record running_status {
  state = TaskState.failed;
  result = some JobResult.task_failed;
}

abbrev pub running_ref : TaskRef
running_ref = record {
  name = "job-1.1";
  creation_timestamp = at_second 20;
  running_timestamp = some (at_second 25);
  finish_timestamp = none;
  status = running_status;
  deleted_status = none;
  node_name = "node-1";
  container_states = [];
}

abbrev pub success_ref : TaskRef
success_ref = record running_ref { finish_timestamp = some (at_second 40); status = success_status }

abbrev pub failed_ref : TaskRef
failed_ref = record running_ref { finish_timestamp = some (at_second 40); status = failed_status }

-- The Job once it is started.
abbrev pub started_job : Job
started_job = record created_job {
  status = record (created_job.status) { start_time = some (at_second 10) };
}

-- The started Job with given tasks.
abbrev pub job_with : ℤ → List TaskRef → Job
job_with n refs = record started_job {
  status = record (started_job.status) { tasks = refs; created_tasks = n };
}

abbrev pub task_of : TaskRef → Task
task_of ref = record {
  name = ref.name;
  task_ref = ref;
  kind = "Pod";
  retry_index = some (pos 1);
  requires_kill_with_deletion = false;
  kill_timestamp = none;
  killed_from_pending_timeout_marker = false;
  deletion_timestamp = none;
}

abbrev pub job_config : JobConfig
job_config = record {
  metadata = record metadata {
    name = "config-1";
    uid = "uid-config-1";
    labels = [];
    finalizers = [];
  };
  spec = record {
    template = record { labels = []; annotations = []; spec = template };
    option = none;
    concurrency = record { policy = ConcurrencyPolicy.forbid };
    schedule = none;
  };
  status = record {
    state = JobConfigState.ready;
    queued = pos 0;
    queued_jobs = [];
    active = pos 0;
    active_jobs = [];
    last_scheduled = none;
  };
}
