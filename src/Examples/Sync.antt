-- ===== src/Examples/Sync.antt =====
-- The theorems on the sync of a Job, for one that is started and has no task yet.
use furiko.Prelude.{
  pos, ◌+ℤ◌, ◌+◌, ◌≤◌, ◌≡◌, refl, true, not, ◌&&◌, [], ◌∷◌, some, if◌then◌else◌, All, length,
}
use furiko.Meta.{contains_finalizer, remove_finalizer}
use furiko.Ktime.{is_time_set_and_earlier_than_or_equal_to}
use furiko.Api.Job.{Job}
use furiko.Api.Config.{JobExecutionConfig}
use furiko.JobUtil.Queries.{is_started, is_task_finished, allowed_to_create_new_task}
use furiko.JobUtil.TaskRefs.{update_job_task_refs}
use furiko.JobController.Status.{
  is_deleted, update_task_ref_status, is_finalized, sync_job_status_from_task_refs,
}
use furiko.JobController.Writes.{
  Env, enqueue, set_tasks_kill_timestamp, concurrent_updates, not_found, created, deleted,
}
use furiko.JobController.Creation.{
  creations, is_due, sync_create_new_task, sync_create_new_task-creations,
}
use furiko.JobController.Killing.{is_ended, handle_kill_job, handle_kill_job-ended}
use furiko.JobController.Deleting.{handle_finish_finalizer}
use furiko.JobController.Finalizing.{handle_finish_finalizer-none}
use furiko.JobController.Sync.{sync}
use furiko.JobController.Attempts.{sync-bound}
use furiko.Samples.{started_job, running_ref, success_ref, task_of, at_second}

abbrev env : Env
env = record {
  now = at_second 100;
  task_manager_ok = true;
  list = some [];
  index = λ _. not_found;
  get = λ _. not_found;
  create_index = λ _. created (task_of running_ref);
  update_marker = λ task. some (record task { killed_from_pending_timeout_marker = true });
  update_kill_timestamp = λ task ts. some (record task { kill_timestamp = some ts });
  delete = λ _ _. deleted;
  delete_job_ok = true;
}

abbrev config : JobExecutionConfig
config = record {
  default_ttl_seconds_after_finished = some (pos 3600);
  default_pending_timeout_seconds = some (pos 900);
  delete_killing_tasks_timeout_seconds = some (pos 180);
  force_delete_killing_tasks_timeout_seconds = some (pos 120);
}

abbrev killed_job : Job
killed_job = record started_job {
  spec = record (started_job.spec) { kill_timestamp = some (at_second 80) };
}

abbrev deleted_job : Job
deleted_job = record started_job {
  metadata = record (started_job.metadata) { deletion_timestamp = some (at_second 90) };
  status = record (started_job.status) { tasks = success_ref ∷ []; created_tasks = pos 1 };
}

sync-bound_example :
    length (creations env (sync env started_job config []).1)
    ≤ (if is_started started_job && not (is_deleted started_job) then 1 else 0) + 0
sync-bound_example = sync-bound env started_job config []

sync_create_new_task-creations_example :
    creations env (sync_create_new_task env started_job [] []).1 ≡ (
      if allowed_to_create_new_task started_job && is_due env started_job && true && true
      then (pos 0 +ℤ pos 1) ∷ []
      else [])
sync_create_new_task-creations_example = sync_create_new_task-creations env started_job [] []

handle_kill_job-ended_example :
    All
      (λ task.
        is_ended env
          (at_second 80)
          (handle_kill_job env killed_job (task_of running_ref ∷ []) []).1
          task
        ≡ true)
      (task_of running_ref ∷ [])
unfolding handle_kill_job set_tasks_kill_timestamp concurrent_updates is_task_finished
    is_time_set_and_earlier_than_or_equal_to
handle_kill_job-ended_example =
    handle_kill_job-ended env killed_job (task_of running_ref ∷ [])
      (record (task_of running_ref) { kill_timestamp = some (at_second 80) } ∷ []) [] (at_second 80)
      refl refl refl

handle_finish_finalizer-none_example : All (λ ref. env.get ref.name ≡ not_found) (success_ref ∷ [])
unfolding handle_finish_finalizer is_finalized contains_finalizer update_task_ref_status
    sync_job_status_from_task_refs enqueue is_deleted remove_finalizer update_job_task_refs
handle_finish_finalizer-none_example =
    handle_finish_finalizer-none env deleted_job
      (record (update_task_ref_status env.now deleted_job [] []).0 {
        metadata = record (deleted_job.metadata) { finalizers = [] };
      })
      [] refl refl refl
