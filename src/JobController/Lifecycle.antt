-- ===== src/JobController/Lifecycle.antt =====
-- The life of a Job as its status tells it: conditions, phases, and when a Job is final.
use furiko.Prelude.{
  ◌≡◌, refl, ◌⊎◌, inl, inr, Bool, true, false, ◌&&◌, none, some, arith, is_some, is_none, last?,
  String, ◌∙◌, ap, sym, Option-cases, if◌then◌else◌,
}
use furiko.Ktime.{Time, is_zero}
use furiko.Api.Job.{Job, JobPhase, JobResult, JobCondition, TaskRef, is_terminal}
use furiko.JobUtil.Queries.{
  is_started, get_admission_error_message, allowed_to_create_new_task, has_active_task,
  is_unfinished, has_success_task, get_max_allowed_tasks,
}
use furiko.JobUtil.Condition.{get_condition, get_phase, phase_of_result, admission_error_condition}
use furiko.JobController.Status.{update_job_status_from_task_refs, final_condition}

-- How many of the four conditions are set.
abbrev pub one_of : JobCondition → Bool
one_of c =
    if is_some c.queueing
    then is_none c.waiting && is_none c.running && is_none c.finished
    else if is_some c.waiting
    then is_none c.running && is_none c.finished
    else if is_some c.running
    then is_none c.finished
    else is_some c.finished

phase_of_result-terminal : (r : JobResult) → is_terminal (phase_of_result r) ≡ true
unfolding is_terminal phase_of_result
phase_of_result-terminal JobResult.success = refl
phase_of_result-terminal _ = refl

get_phase-terminal :
    (now : Time) (rj : Job) → is_terminal (get_phase now rj) ≡ is_some rj.status.condition.finished
unfolding get_phase is_terminal
get_phase-terminal now rj = ground arith

-- GetCondition sets exactly one of the four conditions, whatever the Job.
pub get_condition-one : (now : Time) (rj : Job) → one_of (get_condition now rj) ≡ true
unfolding get_condition
get_condition-one now rj = ground arith

-- After a status update the phase is terminal exactly when the condition is Finished.
pub update-terminal :
    (now : Time) (rj : Job)
    → let new = update_job_status_from_task_refs now rj in
      is_terminal new.status.phase ≡ is_some new.status.condition.finished
unfolding update_job_status_from_task_refs
update-terminal now rj = get_phase-terminal now _

final_condition-finished_of_deleted :
    (now : Time) (rj : Job)
    → is_some rj.metadata.deletion_timestamp ≡ true
    → is_some (final_condition now rj).finished ≡ true
unfolding final_condition
final_condition-finished_of_deleted now rj h = ground arith

-- After a status update the phase of a Job with a deletion timestamp is terminal.
pub update-terminal_of_deleted :
    (now : Time) (rj : Job)
    → is_some rj.metadata.deletion_timestamp ≡ true
    → is_terminal (update_job_status_from_task_refs now rj).status.phase ≡ true
unfolding update_job_status_from_task_refs
update-terminal_of_deleted now rj h =
    get_phase-terminal now _ ∙ final_condition-finished_of_deleted now rj h

-- The Job with another condition and another phase.
abbrev with_status : Job → JobCondition → JobPhase → Job
with_status rj condition phase = record rj {
  status = record (rj.status) { condition = condition; phase = phase };
}

get_condition-admission_error :
    (now : Time) (rj : Job) {message : String}
    → get_admission_error_message rj ≡ some message
    → get_condition now rj ≡ admission_error_condition now rj.status.condition.finished message
unfolding get_condition
get_condition-admission_error now rj e = rw (e, get_condition)

-- Without an admission error GetCondition reads neither the clock nor the old condition and phase.
get_condition-with_status :
    (now now' : Time) (rj : Job) (condition : JobCondition) (phase : JobPhase)
    → get_admission_error_message rj ≡ none
    → get_condition now' (with_status rj condition phase) ≡ get_condition now rj
unfolding get_condition get_admission_error_message allowed_to_create_new_task get_max_allowed_tasks
    has_active_task has_success_task
get_condition-with_status now now' rj condition phase e = ground arith

-- The same clock reading, or a set clock and a Job that is not being deleted.
abbrev IsAgain : Time → Time → Job → Type 0
IsAgain now now' rj =
    (now' ≡ now) ⊎ ((is_zero now ≡ false) × (rj.metadata.deletion_timestamp ≡ none))

final_condition_again :
    (now now' : Time) (rj : Job) (phase : JobPhase)
    → IsAgain now now' rj
    → final_condition now' (with_status rj (final_condition now rj) phase) ≡ final_condition now rj
unfolding final_condition get_admission_error_message
final_condition_again now now' rj phase again =
    elim (Option-cases (get_admission_error_message rj)) [
      | inl e ↦
          ground (arith, get_condition-with_status now now' rj (final_condition now rj) phase e)
      | inr (message, e) ↦ ground (
        arith,
        get_condition-admission_error now rj e,
        get_condition-admission_error now' (with_status rj (final_condition now rj) phase) e,
      )
    ]

-- GetPhase reads the clock only while the Job is not finished, and never the old phase.
get_phase_again :
    (now now' : Time) (rj : Job) (condition : JobCondition) (phase phase' : JobPhase)
    → (now' ≡ now) ⊎ (is_some condition.finished ≡ true)
    → get_phase now' (with_status rj condition phase')
      ≡ get_phase now (with_status rj condition phase)
unfolding get_phase
get_phase_again now now' rj condition phase phase' (inl same) =
    ap (λ t. get_phase t (with_status rj condition phase)) same
get_phase_again now now' rj condition phase phase' (inr finished) = ground arith

update_again :
    (now now' : Time) (rj : Job)
    → IsAgain now now' rj
    → (now' ≡ now) ⊎ (is_some (final_condition now rj).finished ≡ true)
    → update_job_status_from_task_refs now' (update_job_status_from_task_refs now rj)
      ≡ update_job_status_from_task_refs now rj
unfolding update_job_status_from_task_refs
update_again now now' rj again settled =
    let c = final_condition now rj in
    let p = get_phase now (with_status rj c rj.status.phase) in
    ap (λ c'. with_status rj c' (get_phase now' (with_status rj c' p)))
      (final_condition_again now now' rj p again)
    ∙ ap (with_status rj c) (get_phase_again now now' rj c rj.status.phase p settled)

-- Updating the status of a Job twice at one clock reading is updating it once.
pub update-idempotent :
    (now : Time) (rj : Job)
    → update_job_status_from_task_refs now (update_job_status_from_task_refs now rj)
      ≡ update_job_status_from_task_refs now rj
update-idempotent now rj = update_again now now rj (inl refl) (inl refl)

-- A Job with no deletion timestamp whose status update gives a terminal phase, at a clock other
-- than the zero time, is changed by no later status update with the same tasks: condition, finish
-- time and phase stay.
pub finished_stable :
    (now now' : Time) (rj : Job)
    → is_zero now ≡ false
    → rj.metadata.deletion_timestamp ≡ none
    → is_terminal (update_job_status_from_task_refs now rj).status.phase ≡ true
    → update_job_status_from_task_refs now' (update_job_status_from_task_refs now rj)
      ≡ update_job_status_from_task_refs now rj
unfolding update_job_status_from_task_refs
finished_stable now now' rj set alive done =
    update_again now now' rj (inr (set, alive)) (inr (sym (get_phase-terminal now _) ∙ done))

-- If a status update gives the phase Succeeded, the Job is started and its latest task is finished
-- with the result Success.
pub succeeded-success :
    (now : Time) (rj : Job)
    → (update_job_status_from_task_refs now rj).status.phase ≡ JobPhase.succeeded
    → (t : TaskRef) × (last? rj.status.tasks ≡ some t)
      × (t.status.result ≡ some JobResult.success)
      × (is_unfinished t ≡ false)
      × (is_started rj ≡ true)
unfolding update_job_status_from_task_refs get_phase get_condition is_started
succeeded-success now rj h = elim (Option-cases (last? rj.status.tasks)) [
  | inl e ↦ absurd (ground arith)
  | inr (t, e) ↦ (t, e, ground arith, ground arith, ground arith)
]
