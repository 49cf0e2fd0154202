-- ===== src/JobController/Writes.antt =====
-- pkg/execution/controllers/jobcontroller/reconciler.go: how the sync of a Job reads and writes. `Env`
-- says what the clock, the API server and the task manager answer; what is asked of them is logged,
-- the last first. The goroutines of ConcurrentTasks run in the order of the tasks. A task's own writes
-- answer the task as it is afterwards, which takes the place of the old one in the list.
use furiko.Prelude.{
  ℤ, Bool, true, false, not, ◌&&◌, List, [], ◌∷◌, Option, none, some, String, if◌then◌else◌,
}
use furiko.Ktime.{
  Time, Duration, duration_max, second, is_time_set_and_earlier,
  is_time_set_and_earlier_than_or_equal_to,
}
use furiko.Tasks.{Task}

pub data Lookup : Type 0 where
  found : Task → Lookup
  not_found lookup_failed : Lookup

-- CreateIndex: `refused` is an AdmissionRefused error with its text.
pub data Creation : Type 0 where
  created : Task → Creation
  refused : String → Creation
  create_failed : Creation

pub data Deletion : Type 0 where
  deleted was_gone delete_failed : Deletion

pub record Env : Type 0 where
  pub now : Time
  pub task_manager_ok : Bool
  pub list : Option (List Task)
  pub index : ℤ → Lookup
  pub get : String → Lookup
  pub create_index : ℤ → Creation
  pub update_marker : Task → Option Task
  pub update_kill_timestamp : Task → Time → Option Task
  pub delete : String → Bool → Deletion
  pub delete_job_ok : Bool

pub data Action : Type 0 where
  create_task : ℤ → Action
  set_marker : String → Action
  set_kill_timestamp : String → Time → Action
  delete_task : String → Bool → Action
  delete_job : Action
  enqueue_after : Duration → Action

abbrev pub Log : Type 0
Log = List Action

-- How a routine ends; `panicked` is the dereference of a nil template.
pub data Outcome (A : Type 0) : Type 0 where
  ok : A → Outcome A
  failed panicked : Outcome A

abbrev pub and_then :
    {A B : Type 0} → Outcome A × Log → (A → Log → Outcome B × Log) → Outcome B × Log
and_then (ok a, log) f = f a log
and_then (failed, log) f = (failed, log)
and_then (panicked, log) f = (panicked, log)

abbrev pub check : Bool × Log → Outcome Unit × Log
check (true, log) = (ok tt, log)
check (false, log) = (failed, log)

unfoldable pub enqueue : Duration → Log → Log
enqueue duration log = enqueue_after (duration_max second duration) ∷ log

-- ConcurrentTasks: all tasks are tried; it ends well if each one does.
unfoldable pub concurrent_tasks : (Task → Log → Bool × Log) → List Task → Log → Bool × Log
concurrent_tasks f [] log = (true, log)
concurrent_tasks f (task ∷ tasks) log =
    let (good, log1) = f task log in
    let (rest, log2) = concurrent_tasks f tasks log1 in (good && rest, log2)

abbrev pub add_task : Option Task → Option (List Task) → Option (List Task)
add_task (some task) (some tasks) = some (task ∷ tasks)
add_task none tasks = none
add_task (some task) none = none

-- ConcurrentTasks on the tasks that are picked, where each write changes its task.
unfoldable pub concurrent_updates :
    (Task → Log → Option Task × Log) → List Bool → List Task → Log → Option (List Task) × Log
concurrent_updates f [] tasks log = (some tasks, log)
concurrent_updates f (picked ∷ picks) [] log = (some [], log)
concurrent_updates f (true ∷ picks) (task ∷ tasks) log =
    let (new_task, log1) = f task log in
    let (rest, log2) = concurrent_updates f picks tasks log1 in (add_task new_task rest, log2)
concurrent_updates f (false ∷ picks) (task ∷ tasks) log =
    let (rest, log1) = concurrent_updates f picks tasks log in (add_task (some task) rest, log1)

abbrev pub check_tasks : Option (List Task) × Log → Outcome (List Task) × Log
check_tasks (some tasks, log) = (ok tasks, log)
check_tasks (none, log) = (failed, log)

module _ (env : Env) where
  abbrev pub kill_task : Time → Task → Log → Option Task × Log
  kill_task ts task log =
      if is_time_set_and_earlier_than_or_equal_to task.kill_timestamp env.now
      then (some task, log)
      else (env.update_kill_timestamp task ts, set_kill_timestamp task.name ts ∷ log)

  unfoldable pub set_tasks_kill_timestamp :
      List Bool → List Task → Time → Log → Outcome (List Task) × Log
  unfolding concurrent_updates
  set_tasks_kill_timestamp picks tasks ts log =
      check_tasks (concurrent_updates (kill_task ts) picks tasks log)

  abbrev pub mark_task : Task → Log → Option Task × Log
  mark_task task log =
      if task.killed_from_pending_timeout_marker
      then (some task, log)
      else (env.update_marker task, set_marker task.name ∷ log)

  unfoldable pub mark_killed_from_pending_timeout :
      List Bool → List Task → Log → Outcome (List Task) × Log
  unfolding concurrent_updates
  mark_killed_from_pending_timeout picks tasks log =
      check_tasks (concurrent_updates mark_task picks tasks log)

  abbrev deletion_ok : Deletion → Bool
  deletion_ok delete_failed = false
  deletion_ok _ = true

  abbrev pub delete_one : Bool → Task → Log → Bool × Log
  delete_one force task log =
      if not force && is_time_set_and_earlier env.now task.deletion_timestamp
      then (true, log)
      else (deletion_ok (env.delete task.name force), delete_task task.name force ∷ log)

  unfoldable pub delete_tasks : List Task → Bool → Log → Outcome Unit × Log
  unfolding concurrent_tasks
  delete_tasks tasks force log =
      if not env.task_manager_ok
      then (failed, log)
      else check (concurrent_tasks (delete_one force) tasks log)
