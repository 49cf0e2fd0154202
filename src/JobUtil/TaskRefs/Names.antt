-- ===== src/JobUtil/TaskRefs/Names.antt =====
-- GenerateTaskRefs and the names of the TaskRefs: no task is lost, none counts twice, and the number
-- of created tasks does not fall.
use furiko.Prelude.{
  ℕ, ◌+◌, ◌≤◌, ◌<◌, suc, ◌≡◌, refl, Bool, true, false, not, ◌||◌, List, [], ◌∷◌, ◌++◌, Option,
  String, str_eq, eq_iff, if◌then◌else◌, arith, length, select, length-append, length-map, All, pos,
  ◌≤ℤ◌, ap, ◌∙◌,
}
use furiko.Ktime.{Time}
use furiko.Api.Job.{Job, TaskRef}
use furiko.Tasks.{Task}
use furiko.JobUtil.TaskRefs.{
  generate_task_refs, sort_task_refs, insert_ref, task_refs_of, lost_refs, is_task_name,
  get_task_ref, existing_ref, lose_ref, update_job_task_refs,
}

-- How many TaskRefs have a name, and how many tasks.
abbrev pub count_refs : String → List TaskRef → ℕ
count_refs n [] = 0
count_refs n (r ∷ refs) = if str_eq r.name n then suc (count_refs n refs) else count_refs n refs

abbrev pub count_tasks : String → List Task → ℕ
count_tasks n [] = 0
count_tasks n (t ∷ tasks) =
    if str_eq t.name n then suc (count_tasks n tasks) else count_tasks n tasks

-- A task calls itself in its TaskRef what GetName calls it.
abbrev pub IsNamed : Task → Type 0
IsNamed task = task.task_ref.name ≡ task.name

count_refs-append :
    (n : String) (xs ys : List TaskRef)
    → count_refs n (xs ++ ys) ≡ count_refs n xs + count_refs n ys
count_refs-append n [] ys = omega arith
count_refs-append n (x ∷ xs) ys = ground (arith, count_refs-append n xs ys)

count_refs-insert_ref :
    (n : String) (r : TaskRef) (refs : List TaskRef)
    → count_refs n (insert_ref r refs) ≡ count_refs n (r ∷ refs)
unfolding insert_ref
count_refs-insert_ref n r [] = refl
count_refs-insert_ref n r (x ∷ refs) = ground (arith, count_refs-insert_ref n r refs)

count_refs-sort :
    (n : String) (refs : List TaskRef) → count_refs n (sort_task_refs refs) ≡ count_refs n refs
unfolding sort_task_refs
count_refs-sort n [] = refl
count_refs-sort n (r ∷ refs) =
    ground (arith, count_refs-insert_ref n r (sort_task_refs refs), count_refs-sort n refs)

pub get_task_ref-name :
    (existing : Option TaskRef) (task : Task)
    → (get_task_ref existing task).name ≡ task.task_ref.name
unfolding get_task_ref
get_task_ref-name existing task = ground arith

count_refs-task_refs_of :
    (n : String) (existing : List TaskRef) (tasks : List Task)
    → All IsNamed tasks
    → count_refs n (task_refs_of existing tasks) ≡ count_tasks n tasks
unfolding task_refs_of
count_refs-task_refs_of n existing [] named = refl
count_refs-task_refs_of n existing (t ∷ tasks) (h, named) = ground (
  arith,
  get_task_ref-name (existing_ref existing t.name) t,
  count_refs-task_refs_of n existing tasks named,
)

count_refs-lost_refs :
    (n : String) (now : Time) (existing : List TaskRef) (tasks : List Task)
    → count_refs n (lost_refs now existing tasks)
      ≡ (if is_task_name tasks n then 0 else count_refs n existing)
unfolding lost_refs
count_refs-lost_refs n now [] tasks = ground arith
count_refs-lost_refs n now (r ∷ existing) tasks =
    ground (arith, eq_iff r.name n, count_refs-lost_refs n now existing tasks)

-- If every task's TaskRef carries the task's name, GenerateTaskRefs has a name as often as the
-- tasks do, and besides, where no task has it, as often as the existing refs do.
pub count_refs-generate :
    (n : String) (now : Time) (existing : List TaskRef) (tasks : List Task)
    → All IsNamed tasks
    → count_refs n (generate_task_refs now existing tasks)
      ≡ count_tasks n tasks + (if is_task_name tasks n then 0 else count_refs n existing)
unfolding generate_task_refs
count_refs-generate n now existing tasks named = ground (
  arith,
  count_refs-sort n (task_refs_of existing tasks ++ lost_refs now existing tasks),
  count_refs-append n (task_refs_of existing tasks) (lost_refs now existing tasks),
  count_refs-task_refs_of n existing tasks named,
  count_refs-lost_refs n now existing tasks,
)

abbrev pub UniqueRefs : List TaskRef → Type 0
UniqueRefs refs = (n : String) → count_refs n refs ≤ 1

abbrev pub UniqueTasks : List Task → Type 0
UniqueTasks tasks = (n : String) → count_tasks n tasks ≤ 1

count_tasks-zero :
    (n : String) (tasks : List Task) → is_task_name tasks n ≡ false → count_tasks n tasks ≡ 0
unfolding is_task_name
count_tasks-zero n [] h = refl
count_tasks-zero n (t ∷ tasks) h = ground (arith, count_tasks-zero n tasks)

count_tasks-pos :
    (n : String) (tasks : List Task) → is_task_name tasks n ≡ true → 0 < count_tasks n tasks
unfolding is_task_name
count_tasks-pos n [] h = cc
count_tasks-pos n (t ∷ tasks) h = ground (arith, count_tasks-pos n tasks)

-- GenerateTaskRefs of refs with unique names and of tasks with unique names, which their refs
-- carry, has unique names.
pub generate-UniqueRefs :
    (now : Time) (existing : List TaskRef) (tasks : List Task)
    → All IsNamed tasks
    → UniqueTasks tasks
    → UniqueRefs existing
    → UniqueRefs (generate_task_refs now existing tasks)
generate-UniqueRefs now existing tasks named once unique n = ground (
  arith,
  count_refs-generate n now existing tasks named,
  count_tasks-zero n tasks,
  once n,
  unique n,
)

-- No name is lost.
pub generate-keeps :
    (n : String) (now : Time) (existing : List TaskRef) (tasks : List Task)
    → All IsNamed tasks
    → 0 < count_refs n existing
    → 0 < count_refs n (generate_task_refs now existing tasks)
generate-keeps n now existing tasks named h =
    ground (arith, count_refs-generate n now existing tasks named, count_tasks-pos n tasks)

length-insert_ref :
    (r : TaskRef) (refs : List TaskRef) → length (insert_ref r refs) ≡ suc (length refs)
unfolding insert_ref
length-insert_ref r [] = refl
length-insert_ref r (x ∷ refs) = ground (arith, length-insert_ref r refs)

length-sort : (refs : List TaskRef) → length (sort_task_refs refs) ≡ length refs
unfolding sort_task_refs
length-sort [] = refl
length-sort (r ∷ refs) = length-insert_ref r (sort_task_refs refs) ∙ ap suc (length-sort refs)

-- Taking out the refs of one name takes out as many as carry it.
length-select-named :
    (n : String) (has : String → Bool) (refs : List TaskRef)
    → length (select (λ r. not (has r.name)) refs)
      ≤ length (select (λ r. not (str_eq n r.name || has r.name)) refs) + count_refs n refs
length-select-named n has [] = omega arith
length-select-named n has (r ∷ refs) =
    ground (arith, eq_iff r.name n, eq_iff n r.name, length-select-named n has refs)

length-select_all : (refs : List TaskRef) → length (select (λ r. true) refs) ≡ length refs
length-select_all [] = refl
length-select_all (r ∷ refs) = ap suc (length-select_all refs)

length-select-unnamed :
    (existing : List TaskRef) (tasks : List Task)
    → UniqueRefs existing
    → length existing
      ≤ length (select (λ r. not (is_task_name tasks r.name)) existing) + length tasks
unfolding is_task_name
length-select-unnamed existing [] unique = omega (arith, length-select_all existing)
length-select-unnamed existing (t ∷ tasks) unique = ground (
  arith,
  length-select-unnamed existing tasks unique,
  length-select-named t.name (is_task_name tasks) existing,
  unique t.name,
)

-- If the refs of a Job have unique names, UpdateJobTaskRefs sets a number of created tasks that is
-- at least the number of refs before.
pub created_tasks-grows :
    (now : Time) (rj : Job) (tasks : List Task)
    → UniqueRefs rj.status.tasks
    → pos (length rj.status.tasks) ≤ℤ (update_job_task_refs now rj tasks).status.created_tasks
unfolding update_job_task_refs generate_task_refs task_refs_of lost_refs
created_tasks-grows now rj tasks unique =
    let existing = rj.status.tasks in
    let kept = task_refs_of existing tasks in
    let lost = lost_refs now existing tasks in
    omega (
      arith,
      length-sort (kept ++ lost),
      length-append kept lost,
      length-map (λ task. get_task_ref (existing_ref existing task.name) task) tasks,
      length-map (lose_ref now) (select (λ r. not (is_task_name tasks r.name)) existing),
      length-select-unnamed existing tasks unique,
    )
