-- ===== src/Api/Meta.antt =====
-- The fields of Kubernetes' ObjectMeta that the program reads or writes, and the label keys of
-- apis/execution/register.go, pkg/execution/util/job/labels.go, pkg/execution/util/jobconfig/labels.go
-- and pkg/execution/taskexecutor/podtaskexecutor/labels.go.
use furiko.Prelude.{List, Option, String, Bool}
use furiko.Ktime.{Time}
use furiko.Meta.{StringMap}

pub record OwnerReference : Type 0 where
  pub kind : String
  pub name : String
  pub uid : String
  pub controller : Option Bool

pub record ObjectMeta : Type 0 where
  pub name : String
  pub namespace : String
  pub uid : String
  pub labels : StringMap
  pub annotations : StringMap
  pub finalizers : List String
  pub owner_references : List OwnerReference
  pub creation_timestamp : Time
  pub deletion_timestamp : Option Time

abbrev pub label_key_admission_error_message : String
label_key_admission_error_message = "execution.furiko.io/admission-error"

abbrev pub annotation_key_schedule_time : String
annotation_key_schedule_time = "execution.furiko.io/schedule-time"

abbrev pub label_key_job_config_uid : String
label_key_job_config_uid = "execution.furiko.io/job-config-uid"

abbrev pub label_key_job_uid : String
label_key_job_uid = "execution.furiko.io/job-uid"

abbrev pub label_key_task_retry_index : String
label_key_task_retry_index = "execution.furiko.io/task-retry-index"

abbrev pub label_key_task_kill_timestamp : String
label_key_task_kill_timestamp = "execution.furiko.io/task-kill-timestamp"

abbrev pub label_key_killed_from_pending_timeout : String
label_key_killed_from_pending_timeout = "execution.furiko.io/task-killed-from-pending-timeout"

abbrev pub delete_dependents_finalizer : String
delete_dependents_finalizer = "execution.furiko.io/delete-dependents-finalizer"

abbrev pub annotation_key_option_spec_hash : String
annotation_key_option_spec_hash = "execution.furiko.io/option-spec-hash"
