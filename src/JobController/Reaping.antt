-- ===== src/JobController/Reaping.antt =====
-- What the handlers of a sync write creates no task.
use furiko.Prelude.{
  ◌≡◌, refl, ◌∙◌, Bool, List, [], ◌∷◌, arith, map, Option-cases, Option, none, some, true, false,
  ap, inl, inr,
}
use furiko.Ktime.{Time, Duration}
use furiko.Api.Job.{Job, TaskStatus}
use furiko.Api.Config.{JobExecutionConfig}
use furiko.Tasks.{Task}
use furiko.JobUtil.Timeout.{get_pending_timeout}
use furiko.JobController.Writes.{
  Env, Log, Outcome, ok, failed, panicked, and_then, enqueue, concurrent_tasks, concurrent_updates,
  check_tasks, kill_task, mark_task, delete_one, set_tasks_kill_timestamp,
  mark_killed_from_pending_timeout, delete_tasks,
}
use furiko.JobController.Creation.{creations}
use furiko.JobController.Killing.{
  handle_pending_tasks, handle_kill_job, find_overdue_tasks, kill_overdue_tasks, needs_kill,
}
use furiko.JobController.Deleting.{find_killing_tasks, find_deleting_tasks, delete_with_status}

module _ (env : Env) where
  -- A write of ConcurrentTasks that creates nothing, however often it is made.
  pub concurrent_tasks-creations :
      (f : Task → Log → Bool × Log)
      → ((task : Task) (log : Log) → creations env (f task log).1 ≡ creations env log)
      → (tasks : List Task) (log : Log)
      → creations env (concurrent_tasks f tasks log).1 ≡ creations env log
  unfolding concurrent_tasks
  concurrent_tasks-creations f same [] log = refl
  concurrent_tasks-creations f same (task ∷ tasks) log =
      concurrent_tasks-creations f same tasks (f task log).1 ∙ same task log

  pub concurrent_updates-creations :
      (f : Task → Log → Option Task × Log)
      → ((task : Task) (log : Log) → creations env (f task log).1 ≡ creations env log)
      → (picks : List Bool) (tasks : List Task) (log : Log)
      → creations env (concurrent_updates f picks tasks log).1 ≡ creations env log
  unfolding concurrent_updates
  concurrent_updates-creations f same [] tasks log = refl
  concurrent_updates-creations f same (picked ∷ picks) [] log = refl
  concurrent_updates-creations f same (true ∷ picks) (task ∷ tasks) log =
      concurrent_updates-creations f same picks tasks (f task log).1 ∙ same task log
  concurrent_updates-creations f same (false ∷ picks) (task ∷ tasks) log =
      concurrent_updates-creations f same picks tasks log

  check_tasks-log : (r : Option (List Task) × Log) → (check_tasks r).1 ≡ r.1
  check_tasks-log (none, log) = refl
  check_tasks-log (some tasks, log) = refl

  pub set_tasks_kill_timestamp-creations :
      (picks : List Bool) (tasks : List Task) (ts : Time) (log : Log)
      → creations env (set_tasks_kill_timestamp env picks tasks ts log).1 ≡ creations env log
  unfolding set_tasks_kill_timestamp
  set_tasks_kill_timestamp-creations picks tasks ts log =
      ap (creations env) (check_tasks-log (concurrent_updates (kill_task env ts) picks tasks log))
      ∙ concurrent_updates-creations (kill_task env ts) (λ task l. ground arith) picks tasks log

  pub mark_killed-creations :
      (picks : List Bool) (tasks : List Task) (log : Log)
      → creations env (mark_killed_from_pending_timeout env picks tasks log).1 ≡ creations env log
  unfolding mark_killed_from_pending_timeout
  mark_killed-creations picks tasks log =
      ap (creations env) (check_tasks-log (concurrent_updates (mark_task env) picks tasks log))
      ∙ concurrent_updates-creations (mark_task env) (λ task l. ground arith) picks tasks log

  pub delete_tasks-creations :
      (tasks : List Task) (force : Bool) (log : Log)
      → creations env (delete_tasks env tasks force log).1 ≡ creations env log
  unfolding delete_tasks
  delete_tasks-creations tasks force log =
      ground (
        arith,
        concurrent_tasks-creations (delete_one env force) (λ task l. ground arith) tasks log,
      )

  pub find_overdue-creations :
      (timeout : Duration) (tasks : List Task) (log : Log)
      → creations env (find_overdue_tasks env timeout tasks log).1 ≡ creations env log
  unfolding find_overdue_tasks enqueue
  find_overdue-creations timeout [] log = refl
  find_overdue-creations timeout (task ∷ tasks) log =
      find_overdue-creations timeout tasks _ ∙ ground arith

  pub find_killing-creations :
      (timeout : Duration) (tasks : List Task) (log : Log)
      → creations env (find_killing_tasks env timeout tasks log).1 ≡ creations env log
  unfolding find_killing_tasks enqueue
  find_killing-creations timeout [] log = refl
  find_killing-creations timeout (task ∷ tasks) log =
      find_killing-creations timeout tasks _ ∙ ground arith

  pub find_deleting-creations :
      (timeout : Duration) (tasks : List Task) (log : Log)
      → creations env (find_deleting_tasks env timeout tasks log).1 ≡ creations env log
  unfolding find_deleting_tasks enqueue
  find_deleting-creations timeout [] log = refl
  find_deleting-creations timeout (task ∷ tasks) log =
      find_deleting-creations timeout tasks _ ∙ ground arith

  -- A routine after one that ends well adds what it adds to the log of that one.
  pub and_then-creations :
      {A B : Type 0} (r : Outcome A × Log) (f : A → Log → Outcome B × Log) (log : Log)
      → creations env r.1 ≡ creations env log
      → ((a : A) (l : Log) → creations env (f a l).1 ≡ creations env l)
      → creations env (and_then r f).1 ≡ creations env log
  and_then-creations (ok a, l) f log e same = same a l ∙ e
  and_then-creations (failed, l) f log e same = e
  and_then-creations (panicked, l) f log e same = e

  pub kill_overdue-creations :
      (picks : List Bool) (tasks : List Task) (log : Log)
      → creations env (kill_overdue_tasks env picks tasks log).1 ≡ creations env log
  kill_overdue-creations picks tasks log = ground (
    arith,
    and_then-creations (mark_killed_from_pending_timeout env picks tasks log)
        (λ marked. set_tasks_kill_timestamp env picks marked env.now) log
        (mark_killed-creations picks tasks log)
        (λ marked. set_tasks_kill_timestamp-creations picks marked env.now),
  )

  pub handle_pending-creations :
      (rj : Job) (tasks : List Task) (cfg : JobExecutionConfig) (log : Log)
      → creations env (handle_pending_tasks env rj tasks cfg log).1 ≡ creations env log
  unfolding handle_pending_tasks
  handle_pending-creations rj tasks cfg log = elim (Option-cases (get_pending_timeout rj cfg)) [
    | inl e ↦ ground arith
    | inr (timeout, e) ↦
        let (overdue, log1) = find_overdue_tasks env timeout tasks log in
        ground (
          arith,
          find_overdue-creations timeout tasks log,
          kill_overdue-creations overdue tasks log1,
        )
  ]

  pub handle_kill_job-creations :
      (rj : Job) (tasks : List Task) (log : Log)
      → creations env (handle_kill_job env rj tasks log).1 ≡ creations env log
  unfolding handle_kill_job
  handle_kill_job-creations rj tasks log = elim (Option-cases rj.spec.kill_timestamp) [
    | inl e ↦ ground arith
    | inr (kill, e) ↦
        ground (
          arith,
          set_tasks_kill_timestamp-creations (map (needs_kill env kill) tasks) tasks kill log,
        )
  ]

  pub delete_with_status-creations :
      (status : Task → TaskStatus) (force : Bool) (rj : Job) (tasks need : List Task) (log : Log)
      → creations env (delete_with_status env status force rj tasks need log).1 ≡ creations env log
  delete_with_status-creations status force rj tasks [] log = refl
  delete_with_status-creations status force rj tasks (task ∷ need) log =
      and_then-creations (delete_tasks env (task ∷ need) force log) _ log
        (delete_tasks-creations (task ∷ need) force log) (λ _ l. refl)
