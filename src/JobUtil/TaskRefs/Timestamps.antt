-- ===== src/JobUtil/TaskRefs/Timestamps.antt =====
-- GenerateTaskRefs and the timestamps of the TaskRefs: what was once observed is not forgotten.
use furiko.Prelude.{
  ◌<◌, ◌≡◌, refl, Bool, true, false, ◌&&◌, ◌||◌, List, [], ◌∷◌, ◌++◌, Option, none, some, String,
  str_eq, eq_iff, if◌then◌else◌, arith, any, any-append, All, ◌∙◌, is_some, inl, inr, ◌⊎◌,
  Bool-cases,
}
use furiko.Ktime.{Time, is_zero}
use furiko.Meta.{lookup, insert, lookup-insert}
use furiko.Api.Job.{TaskRef}
use furiko.Tasks.{Task}
use furiko.JobUtil.Queries.{is_unfinished}
use furiko.JobUtil.TaskRefs.{
  generate_task_refs, sort_task_refs, insert_ref, task_refs_of, lost_refs, is_task_name,
  get_task_ref, existing_ref, index_refs,
}
use furiko.JobUtil.TaskRefs.Names.{IsNamed, count_refs, get_task_ref-name}

any-insert_ref :
    (test : TaskRef → Bool) (r : TaskRef) (refs : List TaskRef)
    → any test (insert_ref r refs) ≡ (test r || any test refs)
unfolding insert_ref
any-insert_ref test r [] = refl
any-insert_ref test r (x ∷ refs) = ground (arith, any-insert_ref test r refs)

any-sort :
    (test : TaskRef → Bool) (refs : List TaskRef) → any test (sort_task_refs refs) ≡ any test refs
unfolding sort_task_refs
any-sort test [] = refl
any-sort test (r ∷ refs) =
    ground (arith, any-insert_ref test r (sort_task_refs refs), any-sort test refs)

-- Whatever no ref of the two parts has, no ref of the result has.
any-generate :
    (test : TaskRef → Bool) (now : Time) (existing : List TaskRef) (tasks : List Task)
    → any test (generate_task_refs now existing tasks)
      ≡ (any test (task_refs_of existing tasks) || any test (lost_refs now existing tasks))
unfolding generate_task_refs
any-generate test now existing tasks =
    any-sort test (task_refs_of existing tasks ++ lost_refs now existing tasks)
    ∙ any-append test (task_refs_of existing tasks) (lost_refs now existing tasks)

-- Some TaskRef of the name is not finished.
abbrev pub is_open : String → List TaskRef → Bool
is_open n refs = any (λ r. str_eq r.name n && is_unfinished r) refs

-- The last ref of a name, or a default.
latest_named : String → Option TaskRef → List TaskRef → Option TaskRef
latest_named n found [] = found
latest_named n found (r ∷ refs) = latest_named n (if str_eq r.name n then some r else found) refs

lookup-index_refs :
    (n : String) (refs : List (String × TaskRef)) (existing : List TaskRef)
    → lookup n (index_refs refs existing) ≡ latest_named n (lookup n refs) existing
unfolding index_refs latest_named
lookup-index_refs n refs [] = refl
lookup-index_refs n refs (r ∷ existing) =
    rw (← lookup-insert r.name n r refs) (lookup-index_refs n (insert r.name r refs) existing)

abbrev is_open_ref : Option TaskRef → Bool
is_open_ref none = false
is_open_ref (some r) = is_unfinished r

latest_named-closed :
    (n : String) (found : Option TaskRef) (existing : List TaskRef)
    → is_open_ref found ≡ false
    → is_open n existing ≡ false
    → is_open_ref (latest_named n found existing) ≡ false
unfolding latest_named
latest_named-closed n found [] closed h = closed
latest_named-closed n found (r ∷ existing) closed h =
    latest_named-closed n (if str_eq r.name n then some r else found) existing (ground arith)
      (ground arith)

latest_named-some :
    (n : String) (found : Option TaskRef) (existing : List TaskRef)
    → (is_some found ≡ true) ⊎ (0 < count_refs n existing)
    → is_some (latest_named n found existing) ≡ true
unfolding latest_named
latest_named-some n found [] h = ground arith
latest_named-some n found (r ∷ existing) h =
    latest_named-some n (if str_eq r.name n then some r else found) existing
      (elim (Bool-cases (str_eq r.name n)) [ inl e ↦ inl (ground arith) | inr e ↦ ground arith ])

existing_ref-closed :
    (n : String) (existing : List TaskRef)
    → is_open n existing ≡ false
    → is_open_ref (existing_ref existing n) ≡ false
unfolding existing_ref lookup
existing_ref-closed n existing h =
    rw (lookup-index_refs n [] existing) (latest_named-closed n none existing refl h)

existing_ref-some :
    (n : String) (existing : List TaskRef)
    → 0 < count_refs n existing
    → is_some (existing_ref existing n) ≡ true
unfolding existing_ref lookup
existing_ref-some n existing h =
    rw (lookup-index_refs n [] existing) (latest_named-some n none existing (inr h))

get_task_ref-closed :
    (existing : Option TaskRef) (task : Task)
    → is_some existing ≡ true
    → is_open_ref existing ≡ false
    → is_unfinished (get_task_ref existing task) ≡ false
unfolding get_task_ref
get_task_ref-closed none task h closed = cc
get_task_ref-closed (some r) task h closed = ground arith

task_refs_of-closed :
    (n : String) (existing : List TaskRef) (tasks : List Task)
    → All IsNamed tasks
    → 0 < count_refs n existing
    → is_open n existing ≡ false
    → is_open n (task_refs_of existing tasks) ≡ false
unfolding task_refs_of
task_refs_of-closed n existing [] named found closed = refl
task_refs_of-closed n existing (t ∷ tasks) (h, named) found closed = ground (
  arith,
  eq_iff t.name n,
  get_task_ref-name (existing_ref existing t.name) t,
  existing_ref-some n existing found,
  existing_ref-closed n existing closed,
  get_task_ref-closed (existing_ref existing n) t,
  task_refs_of-closed n existing tasks named found closed,
)

lost_refs-closed :
    (n : String) (now : Time) (existing : List TaskRef) (tasks : List Task)
    → (is_open n existing ≡ false) ⊎ (is_zero now ≡ false)
    → is_open n (lost_refs now existing tasks) ≡ false
unfolding lost_refs
lost_refs-closed n now [] tasks h = refl
lost_refs-closed n now (r ∷ existing) tasks (inl h) =
    ground (arith, lost_refs-closed n now existing tasks (inl (ground arith)))
lost_refs-closed n now (r ∷ existing) tasks (inr h) =
    ground (arith, lost_refs-closed n now existing tasks (inr h))

-- If every task's TaskRef carries the task's name, a name that has existing refs, all of them
-- finished, has only finished refs after GenerateTaskRefs.
pub finished-generate :
    (n : String) (now : Time) (existing : List TaskRef) (tasks : List Task)
    → All IsNamed tasks
    → 0 < count_refs n existing
    → is_open n existing ≡ false
    → is_open n (generate_task_refs now existing tasks) ≡ false
finished-generate n now existing tasks named found closed = ground (
  arith,
  any-generate (λ r. str_eq r.name n && is_unfinished r) now existing tasks,
  task_refs_of-closed n existing tasks named found closed,
  lost_refs-closed n now existing tasks (inl closed),
)

task_refs_of-unnamed :
    (n : String) (existing : List TaskRef) (tasks : List Task)
    → All IsNamed tasks
    → is_task_name tasks n ≡ false
    → is_open n (task_refs_of existing tasks) ≡ false
unfolding task_refs_of is_task_name
task_refs_of-unnamed n existing [] named absent = refl
task_refs_of-unnamed n existing (t ∷ tasks) (h, named) absent = ground (
  arith,
  get_task_ref-name (existing_ref existing t.name) t,
  task_refs_of-unnamed n existing tasks named,
)

-- If every task's TaskRef carries the task's name and the clock is not at the zero time, a name
-- that no task has has only finished refs after GenerateTaskRefs.
pub lost-generate :
    (n : String) (now : Time) (existing : List TaskRef) (tasks : List Task)
    → All IsNamed tasks
    → is_zero now ≡ false
    → is_task_name tasks n ≡ false
    → is_open n (generate_task_refs now existing tasks) ≡ false
lost-generate n now existing tasks named set absent = ground (
  arith,
  any-generate (λ r. str_eq r.name n && is_unfinished r) now existing tasks,
  task_refs_of-unnamed n existing tasks named absent,
  lost_refs-closed n now existing tasks (inr set),
)
