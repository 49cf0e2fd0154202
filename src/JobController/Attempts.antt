-- ===== src/JobController/Attempts.antt =====
-- How many tasks a sync of a Job asks for.
use furiko.Prelude.{
  ◌≡◌, refl, ◌∙◌, ap, true, false, not, ◌&&◌, List, [], ◌∷◌, if◌then◌else◌, arith, ◌≤◌, suc, length,
  ◌+◌, Option-cases, Bool-cases, inl, inr, ℕ,
}
use furiko.Api.Job.{Job}
use furiko.Api.Config.{JobExecutionConfig}
use furiko.Tasks.{Task}
use furiko.JobUtil.Queries.{is_started}
use furiko.JobUtil.Timeout.{get_delete_killing_timeout, get_force_delete_killing_timeout}
use furiko.JobController.Status.{is_deleted, update_task_ref_status, sync_job_status_from_task_refs}
use furiko.JobController.Writes.{
  Env, Log, Outcome, ok, failed, panicked, and_then, enqueue, delete_tasks,
}
use furiko.JobController.Creation.{
  find_tasks, sync_create_new_task, creations, update_task_ref_status-creations,
  sync_create_new_task-creations,
}
use furiko.JobController.Killing.{handle_pending_tasks, handle_kill_job}
use furiko.JobController.Deleting.{
  handle_delete_killing_tasks, handle_force_delete_killing_tasks, handle_ttl_after_finished,
  handle_finish_finalizer, find_killing_tasks, find_deleting_tasks, finalize, get_tasks,
  set_job_deleted, killed_status,
}
use furiko.JobController.Sync.{reap_tasks, sync_job_tasks, finish_sync, sync, sync_found_tasks}
use furiko.JobController.Reaping.{
  delete_tasks-creations, find_killing-creations, find_deleting-creations, and_then-creations,
  handle_pending-creations, handle_kill_job-creations, delete_with_status-creations,
}

module _ (env : Env) where
  handle_delete_killing-creations :
      (rj : Job) (tasks : List Task) (cfg : JobExecutionConfig) (log : Log)
      → creations env (handle_delete_killing_tasks env rj tasks cfg log).1 ≡ creations env log
  unfolding handle_delete_killing_tasks
  handle_delete_killing-creations rj tasks cfg log =
      let timeout = get_delete_killing_timeout cfg in
      let (need, log1) = find_killing_tasks env timeout tasks log in
      delete_with_status-creations env (killed_status "Deleted" "Task was killed via deletion")
        false rj tasks need log1
      ∙ find_killing-creations env timeout tasks log

  handle_force_delete-creations :
      (rj : Job) (tasks : List Task) (cfg : JobExecutionConfig) (log : Log)
      → creations env (handle_force_delete_killing_tasks env rj tasks cfg log).1 ≡ creations env log
  unfolding handle_force_delete_killing_tasks
  handle_force_delete-creations rj tasks cfg log =
      let timeout = get_force_delete_killing_timeout cfg in
      let (need, log1) = find_deleting_tasks env timeout tasks log in
      ground (
        arith,
        find_deleting-creations env timeout tasks log,
        delete_with_status-creations env
            (killed_status "ForceDeleted"
              "Forcefully deleted the task, container may still be running")
            true rj tasks need log1,
      )

  reap_tasks-creations :
      (rj : Job) (tasks : List Task) (cfg : JobExecutionConfig) (log : Log)
      → creations env (reap_tasks env rj tasks cfg log).1 ≡ creations env log
  unfolding reap_tasks
  reap_tasks-creations rj tasks cfg log =
      and_then-creations env (handle_pending_tasks env rj tasks cfg log) _ log
        (handle_pending-creations env rj tasks cfg log)
        (λ marked log1.
          and_then-creations env (handle_kill_job env rj marked log1) _ log1
            (handle_kill_job-creations env rj marked log1)
            (λ killed log2.
              and_then-creations env (handle_delete_killing_tasks env rj killed cfg log2) _ log2
                (handle_delete_killing-creations rj killed cfg log2)
                (λ rj1 log3.
                  and_then-creations env (handle_force_delete_killing_tasks env rj1 killed cfg log3)
                    _ log3 (handle_force_delete-creations rj1 killed cfg log3)
                    (λ rj2 log4. update_task_ref_status-creations env rj2 killed log4))))

  finalize-creations :
      (rj : Job) (found_tasks : Outcome (List Task)) (log : Log)
      → creations env (finalize env rj found_tasks log).1 ≡ creations env log
  finalize-creations rj failed log = refl
  finalize-creations rj panicked log = refl
  finalize-creations rj (ok []) log = update_task_ref_status-creations env rj [] log
  finalize-creations rj (ok (task ∷ tasks)) log =
      let all = task ∷ tasks in
      let kept = set_job_deleted env rj all in
      let (new_rj, log1) = update_task_ref_status env.now kept all log in
      and_then-creations env (delete_tasks env all false log1) (λ _ l. (ok new_rj, l)) log
        (delete_tasks-creations env all false log1
          ∙ update_task_ref_status-creations env kept all log)
        (λ _ l. refl)

  handle_finish_finalizer-creations :
      (rj : Job) (log : Log)
      → creations env (handle_finish_finalizer env rj log).1 ≡ creations env log
  unfolding handle_finish_finalizer
  handle_finish_finalizer-creations rj log =
      ground (arith, finalize-creations rj (get_tasks env rj.status.tasks) log)

  handle_ttl-creations :
      (rj : Job) (cfg : JobExecutionConfig) (log : Log)
      → creations env (handle_ttl_after_finished env rj cfg log).1 ≡ creations env log
  unfolding handle_ttl_after_finished
  handle_ttl-creations rj cfg log = ground arith

  sync_job_status-creations :
      (rj : Job) (log : Log)
      → creations env (sync_job_status_from_task_refs env.now rj log).1 ≡ creations env log
  unfolding sync_job_status_from_task_refs enqueue
  sync_job_status-creations rj log = ground arith

  finish_sync-creations :
      (rj : Job) (cfg : JobExecutionConfig) (log : Log)
      → creations env (finish_sync env rj cfg log).1 ≡ creations env log
  unfolding finish_sync
  finish_sync-creations rj cfg log =
      let (new_rj, log1) = sync_job_status_from_task_refs env.now rj log in
      and_then-creations env (handle_ttl_after_finished env new_rj cfg log1) _ log
        (handle_ttl-creations new_rj cfg log1 ∙ sync_job_status-creations rj log)
        (λ _. handle_finish_finalizer-creations new_rj)

  -- A routine that adds nothing keeps a bound on what was added before.
  and_then-bound :
      {A B : Type 0} (n : ℕ) (r : Outcome A × Log) (f : A → Log → Outcome B × Log)
      → length (creations env r.1) ≤ n
      → ((a : A) (l : Log) → creations env (f a l).1 ≡ creations env l)
      → length (creations env (and_then r f).1) ≤ n
  and_then-bound n (ok a, l) f h same = omega (arith, ap length (same a l))
  and_then-bound n (failed, l) f h same = h
  and_then-bound n (panicked, l) f h same = h

  sync_create-bound :
      (rj : Job) (tasks : List Task) (log : Log)
      → length (creations env (sync_create_new_task env rj tasks log).1)
        ≤ suc (length (creations env log))
  sync_create-bound rj tasks log = ground (arith, sync_create_new_task-creations env rj tasks log)

  sync_found_tasks-bound :
      (rj : Job) (cfg : JobExecutionConfig) (log : Log) (found_tasks : Outcome (List Task))
      → length (creations env (sync_found_tasks env rj cfg log found_tasks).1)
        ≤ suc (length (creations env log))
  sync_found_tasks-bound rj cfg log failed = omega arith
  sync_found_tasks-bound rj cfg log panicked = omega arith
  sync_found_tasks-bound rj cfg log (ok tasks) =
      let (new_rj, log1) = update_task_ref_status env.now rj tasks log in
      and_then-bound (suc (length (creations env log))) (sync_create_new_task env new_rj tasks log1)
        _
        (omega (
          arith,
          sync_create-bound new_rj tasks log1,
          ap length (update_task_ref_status-creations env rj tasks log),
        ))
        (λ created. reap_tasks-creations created.0 created.1 cfg)

  sync_job_tasks-bound :
      (rj : Job) (cfg : JobExecutionConfig) (log : Log)
      → length (creations env (sync_job_tasks env rj cfg log).1) ≤ suc (length (creations env log))
  unfolding sync_job_tasks
  sync_job_tasks-bound rj cfg log = elim (Option-cases env.list) [
    | inl e ↦ ground arith
    | inr (tasks, e) ↦ ground (arith, sync_found_tasks-bound rj cfg log (find_tasks env rj tasks))
  ]

  -- A sync of a Job asks for at most one new task, and for none if the Job is not started or is
  -- being deleted.
  pub sync-bound :
      (rj : Job) (cfg : JobExecutionConfig) (log : Log)
      → length (creations env (sync env rj cfg log).1)
        ≤ (if is_started rj && not (is_deleted rj) then 1 else 0) + length (creations env log)
  unfolding sync
  sync-bound rj cfg log = elim (Bool-cases (is_started rj && not (is_deleted rj))) [
    | inl e ↦ ground (
      arith,
      and_then-bound (suc (length (creations env log))) (sync_job_tasks env rj cfg log)
          (λ new_rj. finish_sync env new_rj cfg) (sync_job_tasks-bound rj cfg log)
          (λ new_rj. finish_sync-creations new_rj cfg),
    )
    | inr e ↦ ground (arith, finish_sync-creations rj cfg log)
  ]
