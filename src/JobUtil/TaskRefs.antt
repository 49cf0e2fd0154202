-- ===== src/JobUtil/TaskRefs.antt =====
-- pkg/execution/util/job/task_status.go: the TaskRefs of a Job's status.
pub mod Names
pub mod Order
pub mod Timestamps
use text.Mathlib.Text.{is_lt}
use Prim.Native.String.{compare}
use furiko.Prelude.{
  pos, Bool, not, ◌&&◌, List, [], ◌∷◌, ◌++◌, map, Option, none, some, String, str_eq, if◌then◌else◌,
  any, select, length, is_none, eqb_ℤ,
}
use furiko.Ktime.{Time, is_zero_ptr, before}
use furiko.Meta.{lookup, insert}
use furiko.Api.Job.{Job, JobResult, TaskRef, TaskState, TaskStatus}
use furiko.Tasks.{Task}

abbrev keep_if_zero : Option Time → Option Time → Option Time
keep_if_zero new old = if is_zero_ptr new then old else new

-- The fields that GetTaskRef takes over from the existing TaskRef.
keep_existing : Option TaskRef → TaskRef → TaskRef
keep_existing none task_ref = task_ref
keep_existing (some existing) task_ref = record task_ref {
  deleted_status = existing.deleted_status;
  running_timestamp = keep_if_zero task_ref.running_timestamp existing.running_timestamp;
  finish_timestamp = keep_if_zero task_ref.finish_timestamp existing.finish_timestamp;
}

unfoldable pub get_task_ref : Option TaskRef → Task → TaskRef
unfolding keep_existing
get_task_ref existing task =
    let new_task_ref = keep_existing existing task.task_ref in
    if not (is_zero_ptr task.task_ref.finish_timestamp)
    then record new_task_ref { deleted_status = some new_task_ref.status }
    else new_task_ref

-- The map `existingRefs`: of two refs with one name the later one counts.
unfoldable pub index_refs : List (String × TaskRef) → List TaskRef → List (String × TaskRef)
index_refs refs [] = refs
index_refs refs (ref ∷ existing) = index_refs (insert ref.name ref refs) existing

unfoldable pub existing_ref : List TaskRef → String → Option TaskRef
unfolding index_refs
existing_ref existing name = lookup name (index_refs [] existing)

-- The map `newRefNames`.
unfoldable pub is_task_name : List Task → String → Bool
is_task_name tasks name = any (λ task. str_eq task.name name) tasks

-- The status of a TaskRef whose task is gone.
abbrev lost_status : Option TaskStatus → TaskStatus → TaskStatus
lost_status (some deleted) status = deleted
lost_status none status = record status {
  state = TaskState.deleted_final_state_unknown;
  result = if is_none status.result then some JobResult.final_state_unknown else status.result;
}

unfoldable pub lose_ref : Time → TaskRef → TaskRef
lose_ref now existing = record existing {
  finish_timestamp =
      if is_zero_ptr existing.finish_timestamp then some now else existing.finish_timestamp;
  status = lost_status existing.deleted_status existing.status;
}

-- The order of SortTaskRefs.
unfoldable pub ref_less : TaskRef → TaskRef → Bool
ref_less ti tj =
    if not (eqb_ℤ ti.creation_timestamp tj.creation_timestamp)
    then before ti.creation_timestamp tj.creation_timestamp
    else is_lt (compare ti.name tj.name)

unfoldable pub insert_ref : TaskRef → List TaskRef → List TaskRef
unfolding ref_less
insert_ref ref [] = ref ∷ []
insert_ref ref (r ∷ refs) = if ref_less r ref then r ∷ insert_ref ref refs else ref ∷ r ∷ refs

-- `sort.Slice` as an insertion sort: the two agree where no two refs have one name and one time.
unfoldable pub sort_task_refs : List TaskRef → List TaskRef
unfolding insert_ref
sort_task_refs [] = []
sort_task_refs (ref ∷ refs) = insert_ref ref (sort_task_refs refs)

unfoldable pub task_refs_of : List TaskRef → List Task → List TaskRef
unfolding existing_ref get_task_ref
task_refs_of existing tasks =
    map (λ task. get_task_ref (existing_ref existing task.name) task) tasks

unfoldable pub lost_refs : Time → List TaskRef → List Task → List TaskRef
unfolding is_task_name lose_ref
lost_refs now existing tasks =
    map (lose_ref now) (select (λ ref. not (is_task_name tasks ref.name)) existing)

unfoldable pub generate_task_refs : Time → List TaskRef → List Task → List TaskRef
unfolding task_refs_of lost_refs sort_task_refs
generate_task_refs now existing tasks =
    sort_task_refs (task_refs_of existing tasks ++ lost_refs now existing tasks)

unfoldable pub update_job_task_refs : Time → Job → List Task → Job
unfolding generate_task_refs
update_job_task_refs now rj tasks =
    let new_refs = generate_task_refs now rj.status.tasks tasks in
    record rj {
      status = record (rj.status) { tasks = new_refs; created_tasks = pos (length new_refs) };
    }

abbrev set_deleted_status_if_not_set : String → TaskStatus → TaskRef → TaskRef
set_deleted_status_if_not_set task_name status ref =
    if str_eq ref.name task_name && is_none ref.deleted_status
    then record ref { deleted_status = some status }
    else ref

unfoldable pub update_task_ref_deleted_status_if_not_set : Job → String → TaskStatus → Job
update_task_ref_deleted_status_if_not_set rj task_name status = record rj {
  status = record (rj.status) {
    tasks = map (set_deleted_status_if_not_set task_name status) rj.status.tasks;
  };
}

find_ref : String → List TaskRef → Option TaskRef
find_ref name [] = none
find_ref name (ref ∷ refs) = if str_eq ref.name name then some ref else find_ref name refs

unfoldable pub find_task_ref : Job → Task → Option TaskRef
unfolding find_ref
find_task_ref rj task = find_ref task.name rj.status.tasks
