-- ===== src/JobController/Killing.antt =====
-- reconciler.go of the job controller: handlePendingTasks and handleKillJob.
use furiko.Prelude.{
  pos, ◌≡◌, refl, sym, subst, Bool, true, false, not, ◌||◌, ◌&&◌, List, [], ◌∷◌, none, some, map,
  String, str_eq, if◌then◌else◌, arith, any, leb_ℤ, eqb_ℤ, All, eq_refl, is_some, Option,
  Option-cases, inl, inr, ap, ◌∙◌,
}
use furiko.Ktime.{
  Time, Duration, after, before, sub, add, is_zero_ptr, is_time_set_and_earlier_than_or_equal_to,
}
use furiko.Api.Job.{Job}
use furiko.Api.Config.{JobExecutionConfig}
use furiko.Tasks.{Task}
use furiko.JobUtil.Queries.{is_task_finished}
use furiko.JobUtil.Timeout.{get_pending_timeout}
use furiko.JobController.Writes.{
  Env, Action, set_kill_timestamp, Log, Outcome, ok, panicked, enqueue, and_then, kill_task,
  concurrent_updates, check_tasks, set_tasks_kill_timestamp, mark_killed_from_pending_timeout,
}

module _ (env : Env) where
  -- Has the task neither finished nor started to run?
  abbrev is_pending : Task → Bool
  is_pending task =
      is_zero_ptr task.task_ref.finish_timestamp && is_zero_ptr task.task_ref.running_timestamp

  -- Which tasks are pending past their deadline; of the others a later sync is asked for.
  unfoldable pub find_overdue_tasks : Duration → List Task → Log → List Bool × Log
  unfolding enqueue
  find_overdue_tasks timeout [] log = ([], log)
  find_overdue_tasks timeout (task ∷ tasks) log =
      let deadline = add task.task_ref.creation_timestamp timeout in
      let is_late = not (after deadline env.now) in
      let (rest, log1) =
        find_overdue_tasks timeout tasks
          (if is_pending task && not is_late then enqueue (sub deadline env.now) log else log) in
      ((is_pending task && is_late) ∷ rest, log1)

  abbrev pub kill_overdue_tasks : List Bool → List Task → Log → Outcome (List Task) × Log
  kill_overdue_tasks picks tasks log =
      if any (λ picked. picked) picks
      then and_then (mark_killed_from_pending_timeout env picks tasks log)
          (λ marked. set_tasks_kill_timestamp env picks marked env.now)
      else (ok tasks, log)

  unfoldable pub handle_pending_tasks :
      Job → List Task → JobExecutionConfig → Log → Outcome (List Task) × Log
  unfolding find_overdue_tasks
  handle_pending_tasks rj tasks cfg log = elim (get_pending_timeout rj cfg) [
    | none ↦ (panicked, log)
    | some timeout ↦
        let (overdue, log1) = find_overdue_tasks timeout tasks log in
        if leb_ℤ timeout (pos 0) then (ok tasks, log) else kill_overdue_tasks overdue tasks log1
  ]

  abbrev pub needs_kill : Time → Task → Bool
  needs_kill kill task =
      not (is_task_finished task)
      && not (is_time_set_and_earlier_than_or_equal_to task.kill_timestamp kill)

  unfoldable pub handle_kill_job : Job → List Task → Log → Outcome (List Task) × Log
  handle_kill_job rj tasks log = elim rj.spec.kill_timestamp [
    | none ↦ (ok tasks, log)
    | some kill ↦
        if before env.now kill
        then (ok tasks, log)
        else set_tasks_kill_timestamp env (map (needs_kill kill) tasks) tasks kill log
  ]

  -- Does the action set this kill timestamp on the named task?
  abbrev pub kills : String → Time → Action → Bool
  kills name kill (set_kill_timestamp n ts) = str_eq n name && eqb_ℤ ts kill
  kills name kill _ = false

  -- A task that is finished, told to end by now, or told in the log to end at the given time, by a
  -- write that went well.
  abbrev pub is_ended : Time → Log → Task → Bool
  is_ended kill log task =
      is_task_finished task
      || is_time_set_and_earlier_than_or_equal_to task.kill_timestamp env.now
      || any (kills task.name kill) log && is_some (env.update_kill_timestamp task kill)

  -- What killing the picked tasks leaves.
  abbrev killed : Time → List Bool → List Task → Log → Option (List Task) × Log
  killed kill picks tasks log = concurrent_updates (kill_task env kill) picks tasks log

  killed-keeps :
      (kill : Time) (picks : List Bool) (tasks : List Task) (log : Log) (name : String)
      → any (kills name kill) log ≡ true
      → any (kills name kill) (killed kill picks tasks log).1 ≡ true
  unfolding concurrent_updates
  killed-keeps kill [] tasks log name h = h
  killed-keeps kill (picked ∷ picks) [] log name h = h
  killed-keeps kill (true ∷ picks) (task ∷ tasks) log name h =
      ground (arith, killed-keeps kill picks tasks (kill_task env kill task log).1 name)
  killed-keeps kill (false ∷ picks) (task ∷ tasks) log name h =
      killed-keeps kill picks tasks log name h

  killed-step :
      (kill : Time) (task : Task) (tasks done : List Task) (picks : List Bool) (log : Log)
      (picked : Bool)
      → (picked ≡ false → (l : Log) → is_ended kill l task ≡ true)
      → ((l : Log) (d : List Task)
          → (killed kill picks tasks l).0 ≡ some d
          → All (λ t. is_ended kill (killed kill picks tasks l).1 t ≡ true) tasks)
      → (killed kill (picked ∷ picks) (task ∷ tasks) log).0 ≡ some done
      → All
          (λ t. is_ended kill (killed kill (picked ∷ picks) (task ∷ tasks) log).1 t ≡ true)
          (task ∷ tasks)
  unfolding concurrent_updates
  killed-step kill task tasks done picks log true spared rest e =
      let (new_task, log1) = kill_task env kill task log in
      elim (Option-cases (killed kill picks tasks log1).0) [
        | inl fails ↦ absurd (ground arith)
        | inr (others, e') ↦ (
          ground (arith, eq_refl task.name, killed-keeps kill picks tasks log1 task.name),
          rest log1 others e',
        )
      ]
  killed-step kill task tasks done picks log false spared rest e =
      elim (Option-cases (killed kill picks tasks log).0) [
        | inl fails ↦ absurd (ground arith)
        | inr (others, e') ↦ (spared refl (killed kill picks tasks log).1, rest log others e')
      ]

  killed-ended :
      (kill : Time) (test : Task → Bool) (tasks : List Task)
      → ((task : Task) → test task ≡ false → (l : Log) → is_ended kill l task ≡ true)
      → (log : Log) (done : List Task) → (killed kill (map test tasks) tasks log).0 ≡ some done
      → All (λ t. is_ended kill (killed kill (map test tasks) tasks log).1 t ≡ true) tasks
  killed-ended kill test [] spared log done e = tt
  killed-ended kill test (task ∷ tasks) spared log done e =
      killed-step kill task tasks done (map test tasks) log (test task) (spared task)
        (killed-ended kill test tasks spared) e

  spared_task-ended :
      (kill : Time) (task : Task) (log : Log)
      → before env.now kill ≡ false
      → needs_kill kill task ≡ false
      → is_ended kill log task ≡ true
  unfolding is_task_finished is_time_set_and_earlier_than_or_equal_to
  spared_task-ended kill task log due e = ground arith

  handle_kill_job-killed :
      (rj : Job) (tasks : List Task) (log : Log) (kill : Time)
      → rj.spec.kill_timestamp ≡ some kill
      → before env.now kill ≡ false
      → handle_kill_job rj tasks log
        ≡ check_tasks (killed kill (map (needs_kill kill) tasks) tasks log)
  unfolding handle_kill_job set_tasks_kill_timestamp
  handle_kill_job-killed rj tasks log kill e due = ground arith

  check_tasks-ok :
      (r : Option (List Task) × Log) (done : List Task)
      → (check_tasks r).0 ≡ ok done
      → (r.0 ≡ some done) × ((check_tasks r).1 ≡ r.1)
  check_tasks-ok (none, log) done e = absurd (cc)
  check_tasks-ok (some tasks, log) done e = (ground arith, refl)

  -- Once the Job's kill timestamp is reached, handleKillJob, where it ends without an error,
  -- leaves each task finished, told to end by now, or told to end at the Job's kill timestamp by a
  -- write that went well.
  pub handle_kill_job-ended :
      (rj : Job) (tasks done : List Task) (log : Log) (kill : Time)
      → rj.spec.kill_timestamp ≡ some kill
      → before env.now kill ≡ false
      → (handle_kill_job rj tasks log).0 ≡ ok done
      → All (λ task. is_ended kill (handle_kill_job rj tasks log).1 task ≡ true) tasks
  handle_kill_job-ended rj tasks done log kill e due good =
      let run = killed kill (map (needs_kill kill) tasks) tasks log in
      let same = handle_kill_job-killed rj tasks log kill e due in
      let (all_ok, same_log) = check_tasks-ok run done (sym (ap (λ r. r.0) same) ∙ good) in
      subst (λ l. All (λ task. is_ended kill l task ≡ true) tasks)
        (sym (ap (λ r. r.1) same ∙ same_log))
        (killed-ended kill (needs_kill kill) tasks
          (λ task spared l. spared_task-ended kill task l due spared) log done all_ok)
