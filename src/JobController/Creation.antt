-- ===== src/JobController/Creation.antt =====
-- reconciler.go of the job controller: the adoption of tasks in syncJobTasks, and syncCreateNewTask.
use furiko.Prelude.{
  refl, ℕ, zero, suc, ℤ, pos, pos_part, ◌+ℤ◌, ◌-ℤ◌, ◌≡◌, Bool, false, not, ◌&&◌, List, [], ◌∷◌,
  ◌++◌, none, some, if◌then◌else◌, arith, is_some,
}
use furiko.Ktime.{after, sub}
use furiko.Api.Job.{Job}
use furiko.Tasks.{Task}
use furiko.JobUtil.Queries.{
  allowed_to_create_new_task, get_next_allowed_retry, at, error, mark_admission_error,
  contains_active_task, max_task_retry_index, get_max_allowed_tasks,
}
use furiko.JobController.Status.{update_task_ref_status, sync_job_status_from_task_refs}
use furiko.JobController.Writes.{
  Env, found, not_found, lookup_failed, Creation, created, refused, create_failed, create_task,
  set_marker, set_kill_timestamp, delete_task, delete_job, enqueue_after, Log, Outcome, ok, failed,
  panicked, enqueue,
}

module _ (env : Env) where
  -- Tasks of the next `n` retry indexes, from the index on.
  unfoldable pub adopt_tasks : ℕ → ℤ → List Task → Outcome (List Task)
  adopt_tasks zero i tasks = ok tasks
  adopt_tasks (suc n) i tasks = elim (env.index i) [
    | not_found ↦ ok tasks
    | lookup_failed ↦ failed
    | found task ↦ adopt_tasks n (i +ℤ pos 1) (tasks ++ task ∷ [])
  ]

  unfoldable pub find_tasks : Job → List Task → Outcome (List Task)
  unfolding adopt_tasks
  find_tasks rj tasks =
      let max_index = max_task_retry_index tasks in
      if contains_active_task tasks
      then ok tasks
      else adopt_tasks (pos_part (get_max_allowed_tasks rj -ℤ max_index)) (max_index +ℤ pos 1) tasks

  abbrev with_status : Job → List Task → Log → Outcome (Job × List Task) × Log
  with_status rj tasks log =
      let (new_rj, log1) = update_task_ref_status env.now rj tasks log in (ok (new_rj, tasks), log1)

  abbrev finish_creation : Job → List Task → Log → Creation → Outcome (Job × List Task) × Log
  finish_creation rj tasks log create_failed = (failed, log)
  finish_creation rj tasks log (refused message) =
      with_status (mark_admission_error rj message) tasks log
  finish_creation rj tasks log (created task) = with_status rj (tasks ++ task ∷ []) log

  -- createTask, which dereferences the template first.
  unfoldable pub create_new_task : Job → List Task → Log → Outcome (Job × List Task) × Log
  create_new_task rj tasks log = elim rj.spec.template [
    | none ↦ (panicked, log)
    | some template ↦
        let i = rj.status.created_tasks +ℤ pos 1 in
        if not env.task_manager_ok
        then (failed, log)
        else finish_creation rj tasks (create_task i ∷ log) (env.create_index i)
  ]

  unfoldable pub sync_create_new_task : Job → List Task → Log → Outcome (Job × List Task) × Log
  unfolding create_new_task enqueue
  sync_create_new_task rj tasks log =
      if not (allowed_to_create_new_task rj)
      then (ok (rj, tasks), log)
      else elim (get_next_allowed_retry rj) [
        | error e ↦ (failed, log)
        | at t ↦
            if after t env.now
            then (ok (rj, tasks), enqueue (sub t env.now) log)
            else create_new_task rj tasks log
      ]

  -- The indexes of the tasks that the log creates, the last first.
  abbrev pub creations : Log → List ℤ
  creations [] = []
  creations (create_task i ∷ log) = i ∷ creations log
  creations (set_marker name ∷ log) = creations log
  creations (set_kill_timestamp name ts ∷ log) = creations log
  creations (delete_task name force ∷ log) = creations log
  creations (delete_job ∷ log) = creations log
  creations (enqueue_after duration ∷ log) = creations log

  -- The update of a Job's status creates no task.
  pub update_task_ref_status-creations :
      (rj : Job) (tasks : List Task) (log : Log)
      → creations (update_task_ref_status env.now rj tasks log).1 ≡ creations log
  unfolding update_task_ref_status sync_job_status_from_task_refs enqueue
  update_task_ref_status-creations rj tasks log = ground arith

  with_status-creations :
      (rj : Job) (tasks : List Task) (log : Log) (i : ℤ)
      → creations (with_status rj tasks (create_task i ∷ log)).1 ≡ i ∷ creations log
  with_status-creations rj tasks log i =
      update_task_ref_status-creations rj tasks (create_task i ∷ log)

  finish_creation-creations :
      (rj : Job) (tasks : List Task) (log : Log) (i : ℤ) (answer : Creation)
      → creations (finish_creation rj tasks (create_task i ∷ log) answer).1 ≡ i ∷ creations log
  finish_creation-creations rj tasks log i create_failed = refl
  finish_creation-creations rj tasks log i (refused message) =
      with_status-creations (mark_admission_error rj message) tasks log i
  finish_creation-creations rj tasks log i (created task) =
      with_status-creations rj (tasks ++ task ∷ []) log i

  -- May a task be created at the clock?
  abbrev pub is_due : Job → Bool
  is_due rj = elim (get_next_allowed_retry rj) [ error e ↦ false | at t ↦ not (after t env.now) ]

  -- SyncCreateNewTask asks for a task exactly if AllowedToCreateNewTask holds, the time of
  -- GetNextAllowedRetry has come, there is a template, and the task manager works. It asks once,
  -- with the index after the number of created tasks.
  pub sync_create_new_task-creations :
      (rj : Job) (tasks : List Task) (log : Log)
      → creations (sync_create_new_task rj tasks log).1 ≡ (
          if allowed_to_create_new_task rj
            && is_due rj
            && is_some rj.spec.template
            && env.task_manager_ok
          then (rj.status.created_tasks +ℤ pos 1) ∷ creations log
          else creations log)
  unfolding sync_create_new_task create_new_task enqueue
  sync_create_new_task-creations rj tasks log =
      let i = rj.status.created_tasks +ℤ pos 1 in
      ground (arith, finish_creation-creations rj tasks log i (env.create_index i))
