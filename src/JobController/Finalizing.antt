-- ===== src/JobController/Finalizing.antt =====
-- When the job controller lets go of a Job: its finalizer, and its time to live.
use furiko.Prelude.{
  ◌≡◌, refl, ap, ◌∙◌, Bool, true, false, not, ◌&&◌, List, [], ◌∷◌, some, none, All, arith,
  if◌then◌else◌,
}
use furiko.Ktime.{add, after}
use furiko.Meta.{contains_finalizer}
use furiko.Api.Meta.{delete_dependents_finalizer}
use furiko.Api.Job.{Job, TaskRef}
use furiko.Api.Config.{JobExecutionConfig}
use furiko.Tasks.{Task}
use furiko.JobUtil.TaskRefs.{update_task_ref_deleted_status_if_not_set, update_job_task_refs}
use furiko.JobUtil.Timeout.{get_ttl_after_finished}
use furiko.JobController.Status.{
  is_deleted, is_finalized, update_task_ref_status, update_job_status_from_task_refs,
  sync_job_status_from_task_refs,
}
use furiko.JobController.Writes.{Env, not_found, delete_job, Log, Outcome, ok, failed, panicked}
use furiko.JobController.Deleting.{
  get_tasks, set_job_deleted, finalize, handle_finish_finalizer, handle_ttl_after_finished,
}

module _ (env : Env) where
  get_tasks-none :
      (refs : List TaskRef)
      → get_tasks env refs ≡ ok []
      → All (λ ref. env.get ref.name ≡ not_found) refs
  unfolding get_tasks
  get_tasks-none [] e = tt
  get_tasks-none (ref ∷ refs) e = ground (arith, get_tasks-none refs)

  set_job_deleted-metadata :
      (tasks : List Task) (rj : Job) → (set_job_deleted env rj tasks).metadata ≡ rj.metadata
  unfolding update_task_ref_deleted_status_if_not_set
  set_job_deleted-metadata [] rj = refl
  set_job_deleted-metadata (task ∷ tasks) rj = set_job_deleted-metadata tasks _

  update_task_ref_status-metadata :
      (rj : Job) (tasks : List Task) (log : Log)
      → (update_task_ref_status env.now rj tasks log).0.metadata ≡ rj.metadata
  unfolding update_task_ref_status sync_job_status_from_task_refs update_job_status_from_task_refs
      update_job_task_refs
  update_task_ref_status-metadata rj tasks log = refl

  finalize-none :
      (rj new : Job) (found_tasks : Outcome (List Task)) (log : Log)
      → (finalize env rj found_tasks log).0 ≡ ok new
      → contains_finalizer rj.metadata.finalizers delete_dependents_finalizer ≡ true
      → contains_finalizer new.metadata.finalizers delete_dependents_finalizer ≡ false
      → found_tasks ≡ ok []
  finalize-none rj new failed log e had gone = absurd (ground arith)
  finalize-none rj new panicked log e had gone = absurd (ground arith)
  finalize-none rj new (ok []) log e had gone = refl
  finalize-none rj new (ok (task ∷ tasks)) log e had gone =
      let kept = set_job_deleted env rj (task ∷ tasks) in
      let same =
        update_task_ref_status-metadata kept (task ∷ tasks) log
        ∙ set_job_deleted-metadata (task ∷ tasks) rj in
      absurd
        (ground (arith, ap (λ m. contains_finalizer m.finalizers delete_dependents_finalizer) same))

  -- HandleFinishFinalizer takes the finalizer off a Job only if the lister finds none of the tasks
  -- that the Job's status has refs of.
  pub handle_finish_finalizer-none :
      (rj new : Job) (log : Log)
      → (handle_finish_finalizer env rj log).0 ≡ ok new
      → contains_finalizer rj.metadata.finalizers delete_dependents_finalizer ≡ true
      → contains_finalizer new.metadata.finalizers delete_dependents_finalizer ≡ false
      → All (λ ref. env.get ref.name ≡ not_found) rj.status.tasks
  unfolding handle_finish_finalizer is_finalized
  handle_finish_finalizer-none rj new log e had gone =
      get_tasks-none rj.status.tasks
        (ground (arith, finalize-none rj new (get_tasks env rj.status.tasks) log))

  -- Is the Job finished for longer than its time to live?
  abbrev pub is_expired : Job → JobExecutionConfig → Bool
  is_expired rj cfg = elim rj.status.condition.finished [
    | none ↦ false
    | some finished ↦ not (after (add finished.finished_at (get_ttl_after_finished rj cfg)) env.now)
  ]

  -- HandleTTLAfterFinished deletes a Job exactly if it is not being deleted, is finished, and its
  -- finish time plus its time to live is not after the clock.
  pub handle_ttl_after_finished-deletes :
      (rj : Job) (cfg : JobExecutionConfig) (log : Log)
      → (handle_ttl_after_finished env rj cfg log).1
        ≡ (if not (is_deleted rj) && is_expired rj cfg then delete_job ∷ log else log)
  unfolding handle_ttl_after_finished
  handle_ttl_after_finished-deletes rj cfg log = ground arith
