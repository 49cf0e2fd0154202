-- ===== src/JobController/Deleting.antt =====
-- reconciler.go of the job controller: handleDeleteKillingTasks, handleForceDeleteKillingTasks,
-- handleTTLAfterFinished and handleFinishFinalizer.
use furiko.Prelude.{
  pos, Bool, true, false, not, ◌||◌, ◌&&◌, List, [], ◌∷◌, Option, none, some, String, str_eq, map,
  if◌then◌else◌, leb_ℤ,
}
use furiko.Ktime.{
  Duration, after, sub, add, is_zero_ptr, unwrap_meta_v1_time, is_time_set_and_earlier,
}
use furiko.Meta.{remove_finalizer}
use furiko.Api.Meta.{delete_dependents_finalizer}
use furiko.Api.Job.{Job, JobResult, TaskRef, TaskState, TaskStatus}
use furiko.Api.Config.{JobExecutionConfig}
use furiko.Tasks.{Task}
use furiko.JobUtil.Queries.{is_task_finished}
use furiko.JobUtil.TaskRefs.{update_job_task_refs, update_task_ref_deleted_status_if_not_set}
use furiko.JobUtil.Timeout.{
  get_delete_killing_timeout, get_force_delete_killing_timeout, get_ttl_after_finished,
}
use furiko.JobController.Status.{is_deleted, is_finalized, update_task_ref_status}
use furiko.JobController.Writes.{
  Env, found, not_found, lookup_failed, delete_job, Log, Outcome, ok, failed, panicked, enqueue,
  and_then, delete_tasks,
}

-- The maps needDeleteMap: of two tasks with one name the later one counts.
abbrev task_named : String → List Task → Option Task
task_named name [] = none
task_named name (task ∷ tasks) = elim (task_named name tasks) [
  | some later ↦ some later
  | none ↦ if str_eq task.name name then some task else none
]

abbrev pub killed_status : String → String → Task → TaskStatus
killed_status reason message task = record {
  state = TaskState.killed;
  result = some (
      if task.killed_from_pending_timeout_marker
      then JobResult.pending_timeout
      else JobResult.killed);
  reason = reason;
  message = message;
}

-- The DeletedStatus of the refs whose tasks are about to be deleted.
abbrev set_deleted : (Task → TaskStatus) → List Task → TaskRef → TaskRef
set_deleted status tasks ref = elim (task_named ref.name tasks) [
  | none ↦ ref
  | some task ↦ record ref { deleted_status = some (status task) }
]

abbrev set_deleted_refs : (Task → TaskStatus) → List Task → Job → Job
set_deleted_refs status tasks rj = record rj {
  status = record (rj.status) { tasks = map (set_deleted status tasks) rj.status.tasks };
}

module _ (env : Env) where
  -- The tasks to be deleted because killing them did not help.
  unfoldable pub find_killing_tasks : Duration → List Task → Log → List Task × Log
  unfolding enqueue
  find_killing_tasks timeout [] log = ([], log)
  find_killing_tasks timeout (task ∷ tasks) log =
      let deadline = add (unwrap_meta_v1_time task.kill_timestamp) timeout in
      let skipped =
        is_task_finished task
        || is_zero_ptr task.kill_timestamp
        || is_time_set_and_earlier env.now task.deletion_timestamp in
      let deletes = not (after deadline env.now) || task.requires_kill_with_deletion in
      let (rest, log1) =
        find_killing_tasks timeout tasks
          (if not skipped && not deletes then enqueue (sub deadline env.now) log else log) in
      (if not skipped && deletes then task ∷ rest else rest, log1)

  -- The tasks to be deleted by force.
  unfoldable pub find_deleting_tasks : Duration → List Task → Log → List Task × Log
  unfolding enqueue
  find_deleting_tasks timeout [] log = ([], log)
  find_deleting_tasks timeout (task ∷ tasks) log =
      let deadline = add (unwrap_meta_v1_time task.deletion_timestamp) timeout in
      let skipped = is_zero_ptr task.deletion_timestamp in
      let deletes = not (after deadline env.now) in
      let (rest, log1) =
        find_deleting_tasks timeout tasks
          (if not skipped && not deletes then enqueue (sub deadline env.now) log else log) in
      (if not skipped && deletes then task ∷ rest else rest, log1)

  -- The refs are written before the tasks are deleted.
  abbrev pub delete_with_status :
      (Task → TaskStatus) → Bool → Job → List Task → List Task → Log → Outcome Job × Log
  delete_with_status status force rj tasks [] log = (ok rj, log)
  delete_with_status status force rj tasks (task ∷ need) log =
      and_then (delete_tasks env (task ∷ need) force log) (λ _ log1.
        (ok (update_job_task_refs env.now (set_deleted_refs status (task ∷ need) rj) tasks), log1))

  unfoldable pub handle_delete_killing_tasks :
      Job → List Task → JobExecutionConfig → Log → Outcome Job × Log
  unfolding find_killing_tasks
  handle_delete_killing_tasks rj tasks cfg log =
      let (need, log1) = find_killing_tasks (get_delete_killing_timeout cfg) tasks log in
      delete_with_status (killed_status "Deleted" "Task was killed via deletion") false rj tasks
        need log1

  unfoldable pub handle_force_delete_killing_tasks :
      Job → List Task → JobExecutionConfig → Log → Outcome Job × Log
  unfolding find_deleting_tasks
  handle_force_delete_killing_tasks rj tasks cfg log =
      let timeout = get_force_delete_killing_timeout cfg in
      let (need, log1) = find_deleting_tasks timeout tasks log in
      if leb_ℤ timeout (pos 0) then (ok rj, log) else elim rj.spec.template [
        | none ↦ (panicked, log)
        | some template ↦
            if template.task.forbid_force_deletion
            then (ok rj, log)
            else delete_with_status
                (killed_status "ForceDeleted"
                  "Forcefully deleted the task, container may still be running")
                true rj tasks need log1
      ]

  unfoldable pub handle_ttl_after_finished : Job → JobExecutionConfig → Log → Outcome Unit × Log
  handle_ttl_after_finished rj cfg log =
      if is_deleted rj then (ok tt, log) else elim rj.status.condition.finished [
        | none ↦ (ok tt, log)
        | some finished ↦
            if after (add finished.finished_at (get_ttl_after_finished rj cfg)) env.now
            then (ok tt, log)
            else (if env.delete_job_ok then ok tt else failed, delete_job ∷ log)
      ]

  -- The tasks of the refs that the lister finds.
  unfoldable pub get_tasks : List TaskRef → Outcome (List Task)
  get_tasks [] = ok []
  get_tasks (ref ∷ refs) =
      let rest = get_tasks refs in
      elim (env.get ref.name) [
        | not_found ↦ rest
        | lookup_failed ↦ failed
        | found task ↦ elim rest [
          | ok tasks ↦ ok (task ∷ tasks)
          | failed ↦ failed
          | panicked ↦ panicked
        ]
      ]

  abbrev job_deleted_status : TaskStatus
  job_deleted_status = record {
    state = TaskState.killed;
    result = some JobResult.killed;
    reason = "JobDeleted";
    message = "Task was killed in response to deletion of Job";
  }

  abbrev pub set_job_deleted : Job → List Task → Job
  set_job_deleted rj [] = rj
  set_job_deleted rj (task ∷ tasks) =
      set_job_deleted (update_task_ref_deleted_status_if_not_set rj task.name job_deleted_status)
        tasks

  abbrev without_finalizer : Job → Job
  without_finalizer rj = record rj {
    metadata = record (rj.metadata) {
      finalizers = remove_finalizer rj.metadata.finalizers delete_dependents_finalizer;
    };
  }

  abbrev pub finalize : Job → Outcome (List Task) → Log → Outcome Job × Log
  finalize rj failed log = (failed, log)
  finalize rj panicked log = (panicked, log)
  finalize rj (ok []) log =
      let (new_rj, log1) = update_task_ref_status env.now rj [] log in
      (ok (without_finalizer new_rj), log1)
  finalize rj (ok (task ∷ tasks)) log =
      let (new_rj, log1) =
        update_task_ref_status env.now (set_job_deleted rj (task ∷ tasks)) (task ∷ tasks) log in
      and_then (delete_tasks env (task ∷ tasks) false log1) (λ _ log2. (ok new_rj, log2))

  unfoldable pub handle_finish_finalizer : Job → Log → Outcome Job × Log
  unfolding get_tasks
  handle_finish_finalizer rj log =
      if is_zero_ptr rj.metadata.deletion_timestamp
      then (ok rj, log)
      else if is_finalized rj delete_dependents_finalizer
      then (ok rj, log)
      else if not env.task_manager_ok
      then (failed, log)
      else finalize rj (get_tasks rj.status.tasks) log
