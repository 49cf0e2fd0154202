-- ===== src/JobUtil/TaskRefs/Order.antt =====
-- The order of the TaskRefs: the latest task stands last.
use furiko.Prelude.{List, [], ◌∷◌, ◌++◌, arith, ◌≤ℤ◌, All, Bool-cases, inl, inr}
use furiko.Ktime.{Time}
use furiko.Api.Job.{TaskRef}
use furiko.Tasks.{Task}
use furiko.JobUtil.TaskRefs.{
  generate_task_refs, sort_task_refs, insert_ref, ref_less, task_refs_of, lost_refs,
}

-- Each ref was created no later than all that follow it.
abbrev pub IsSorted : List TaskRef → Type 0
IsSorted [] = Unit
IsSorted (r ∷ refs) = All (λ s. r.creation_timestamp ≤ℤ s.creation_timestamp) refs × IsSorted refs

All-insert_ref :
    (t : Time) (r : TaskRef) (refs : List TaskRef)
    → t ≤ℤ r.creation_timestamp
    → All (λ s. t ≤ℤ s.creation_timestamp) refs
    → All (λ s. t ≤ℤ s.creation_timestamp) (insert_ref r refs)
unfolding insert_ref
All-insert_ref t r [] h hs = (h, tt)
All-insert_ref t r (x ∷ refs) h (hx, hs) = ground (arith, All-insert_ref t r refs h hs)

All-le_trans :
    (t u : Time) (refs : List TaskRef)
    → t ≤ℤ u
    → All (λ s. u ≤ℤ s.creation_timestamp) refs
    → All (λ s. t ≤ℤ s.creation_timestamp) refs
All-le_trans t u [] h hs = tt
All-le_trans t u (x ∷ refs) h (hx, hs) = (omega arith, All-le_trans t u refs h hs)

insert_ref-IsSorted :
    (r : TaskRef) (refs : List TaskRef) → IsSorted refs → IsSorted (insert_ref r refs)
unfolding insert_ref
insert_ref-IsSorted r [] s = (tt, tt)
insert_ref-IsSorted r (x ∷ refs) (below, s) = elim (Bool-cases (ref_less x r)) [
  | inl e ↦ ground (arith, All-insert_ref x.creation_timestamp r refs, insert_ref-IsSorted r refs s)
  | inr e ↦ ground (arith, All-le_trans r.creation_timestamp x.creation_timestamp refs)
]

sort-IsSorted : (refs : List TaskRef) → IsSorted (sort_task_refs refs)
unfolding sort_task_refs
sort-IsSorted [] = tt
sort-IsSorted (r ∷ refs) = insert_ref-IsSorted r (sort_task_refs refs) (sort-IsSorted refs)

-- The refs that GenerateTaskRefs answers are in the order of their creation timestamps.
pub generate-IsSorted :
    (now : Time) (existing : List TaskRef) (tasks : List Task)
    → IsSorted (generate_task_refs now existing tasks)
unfolding generate_task_refs
generate-IsSorted now existing tasks =
    sort-IsSorted (task_refs_of existing tasks ++ lost_refs now existing tasks)
