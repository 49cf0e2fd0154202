-- ===== src/JobController/Sync.antt =====
-- reconciler.go of the job controller: syncJobTasks and sync, composed of the handlers.
use furiko.Prelude.{not, ◌&&◌, List, none, some, if◌then◌else◌}
use furiko.Api.Job.{Job}
use furiko.Api.Config.{JobExecutionConfig}
use furiko.Tasks.{Task}
use furiko.JobUtil.Queries.{is_started}
use furiko.JobController.Status.{is_deleted, update_task_ref_status, sync_job_status_from_task_refs}
use furiko.JobController.Writes.{Env, Log, Outcome, ok, failed, panicked, and_then}
use furiko.JobController.Creation.{find_tasks, sync_create_new_task}
use furiko.JobController.Killing.{handle_pending_tasks, handle_kill_job}
use furiko.JobController.Deleting.{
  handle_delete_killing_tasks, handle_force_delete_killing_tasks, handle_ttl_after_finished,
  handle_finish_finalizer,
}

module _ (env : Env) where
  abbrev pub with_status : Job × Log → Outcome Job × Log
  with_status (rj, log) = (ok rj, log)

  -- The handlers after the creation of a task. A task that a handler changes is as it was changed for
  -- the handlers after it.
  unfoldable pub reap_tasks : Job → List Task → JobExecutionConfig → Log → Outcome Job × Log
  unfolding handle_pending_tasks handle_kill_job update_task_ref_status handle_delete_killing_tasks
      handle_force_delete_killing_tasks
  reap_tasks rj tasks cfg log = and_then (handle_pending_tasks env rj tasks cfg log) (λ marked log1.
      and_then (handle_kill_job env rj marked log1) (λ killed log2.
        and_then (handle_delete_killing_tasks env rj killed cfg log2) (λ rj1 log3.
          and_then (handle_force_delete_killing_tasks env rj1 killed cfg log3)
            (λ rj2 log4. with_status (update_task_ref_status env.now rj2 killed log4)))))

  abbrev pub sync_found_tasks :
      Job → JobExecutionConfig → Log → Outcome (List Task) → Outcome Job × Log
  sync_found_tasks rj cfg log failed = (failed, log)
  sync_found_tasks rj cfg log panicked = (panicked, log)
  sync_found_tasks rj cfg log (ok tasks) =
      let (new_rj, log1) = update_task_ref_status env.now rj tasks log in
      and_then (sync_create_new_task env new_rj tasks log1)
        (λ created. reap_tasks created.0 created.1 cfg)

  unfoldable pub sync_job_tasks : Job → JobExecutionConfig → Log → Outcome Job × Log
  unfolding find_tasks sync_create_new_task reap_tasks update_task_ref_status
  sync_job_tasks rj cfg log = if not env.task_manager_ok then (failed, log) else elim env.list [
    | none ↦ (failed, log)
    | some tasks ↦ sync_found_tasks rj cfg log (find_tasks env rj tasks)
  ]

  -- The part of sync after the tasks.
  unfoldable pub finish_sync : Job → JobExecutionConfig → Log → Outcome Job × Log
  unfolding handle_ttl_after_finished handle_finish_finalizer sync_job_status_from_task_refs
  finish_sync rj cfg log =
      let (new_rj, log1) = sync_job_status_from_task_refs env.now rj log in
      and_then (handle_ttl_after_finished env new_rj cfg log1)
        (λ _. handle_finish_finalizer env new_rj)

  -- The Job that comes with an error is left out.
  unfoldable pub sync : Job → JobExecutionConfig → Log → Outcome Job × Log
  unfolding sync_job_tasks finish_sync
  sync rj cfg log =
      if is_started rj && not (is_deleted rj)
      then and_then (sync_job_tasks rj cfg log) (λ new_rj. finish_sync new_rj cfg)
      else finish_sync rj cfg log
