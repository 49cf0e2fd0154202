-- ===== src/Examples/TaskRefs.antt =====
-- The theorems on TaskRefs for a Job with a finished task, a lost one and a new one.
use furiko.Prelude.{◌≡◌, refl, false, [], ◌∷◌, some, List, eq_iff, arith, All}
use furiko.Ktime.{Time}
use furiko.Meta.{lookup, insert}
use furiko.Api.Job.{TaskRef, TaskState, JobResult}
use furiko.Tasks.{Task}
use furiko.JobUtil.TaskRefs.{generate_task_refs}
use furiko.JobUtil.TaskRefs.Names.{IsNamed, UniqueRefs, UniqueTasks, generate-UniqueRefs}
use furiko.JobUtil.TaskRefs.Timestamps.{is_open, finished-generate}
use furiko.Samples.{at_second, failed_ref, running_ref, task_of}

abbrev first_ref : TaskRef
first_ref = failed_ref

abbrev second_ref : TaskRef
second_ref = record running_ref { name = "job-1.2"; creation_timestamp = at_second 80 }

abbrev third_ref : TaskRef
third_ref = record running_ref { name = "job-1.3"; creation_timestamp = at_second 120 }

-- The informer shows the first task without its finish time, and no second task.
abbrev existing : List TaskRef
existing = first_ref ∷ second_ref ∷ []

abbrev current : List Task
current = task_of third_ref ∷ task_of (record running_ref { name = "job-1.1" }) ∷ []

abbrev now : Time
now = at_second 130

current-IsNamed : All IsNamed current
current-IsNamed = (refl, (refl, tt))

unique : UniqueRefs existing
unique n = ground (arith, eq_iff "job-1.1" n, eq_iff "job-1.2" n, eq_iff "job-1.1" "job-1.2")

unique_tasks : UniqueTasks current
unique_tasks n = ground (arith, eq_iff "job-1.1" n, eq_iff "job-1.3" n, eq_iff "job-1.3" "job-1.1")

sorted_names :
    generate_task_refs now existing current
    ≡ record first_ref { status = running_ref.status }
      ∷ record second_ref {
        finish_timestamp = some now;
        status = record (second_ref.status) {
          state = TaskState.deleted_final_state_unknown;
          result = some JobResult.final_state_unknown;
        };
      }
      ∷ third_ref
      ∷ []
unfolding generate_task_refs lookup insert
sorted_names = refl

generate-UniqueRefs_example : UniqueRefs (generate_task_refs now existing current)
generate-UniqueRefs_example =
    generate-UniqueRefs now existing current current-IsNamed unique_tasks unique

finished-generate_example : is_open "job-1.1" (generate_task_refs now existing current) ≡ false
finished-generate_example =
    finished-generate "job-1.1" now existing current current-IsNamed (omega arith) refl
