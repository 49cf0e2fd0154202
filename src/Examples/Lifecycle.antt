-- ===== src/Examples/Lifecycle.antt =====
-- The theorems on the life of a Job at concrete Jobs, and what the status functions answer there.
use furiko.Prelude.{◌≡◌, refl, pos, [], ◌∷◌, some, List}
use furiko.Ktime.{is_time_set_and_earlier}
use furiko.Meta.{lookup}
use furiko.Api.Job.{Job, JobPhase, is_terminal}
use furiko.Tasks.{Task}
use furiko.JobUtil.Queries.{
  allowed_to_create_new_task, is_started, has_active_task, has_success_task, get_max_allowed_tasks,
  get_admission_error_message,
}
use furiko.JobUtil.Condition.{get_condition, get_phase}
use furiko.JobController.Status.{update_job_status_from_task_refs}
use furiko.JobController.Lifecycle.{finished_stable}
use furiko.Samples.{at_second, job_with, success_ref, failed_ref, created_job, metadata, task_of}

-- The functions that a status is computed by, for the tests by evaluation.
program : Unit {0}
unfolding update_job_status_from_task_refs get_condition get_phase get_admission_error_message
    allowed_to_create_new_task has_active_task has_success_task get_max_allowed_tasks is_terminal
    is_started is_time_set_and_earlier lookup
program = tt

abbrev succeeded_job : Job
succeeded_job = job_with (pos 1) (success_ref ∷ [])

abbrev failed_job : Job
failed_job = job_with (pos 1) (failed_ref ∷ [])

abbrev deleted_job : Job
deleted_job = record created_job {
  metadata = record metadata { deletion_timestamp = some (at_second 5) };
}

succeeded_phase :
    (update_job_status_from_task_refs (at_second 50) succeeded_job).status.phase
    ≡ JobPhase.succeeded
unfolding program
succeeded_phase = refl

failed_phase :
    (update_job_status_from_task_refs (at_second 50) failed_job).status.phase
    ≡ JobPhase.retry_backoff
unfolding program
failed_phase = refl

finished_stable_example :
    update_job_status_from_task_refs
      (at_second 90)
      (update_job_status_from_task_refs (at_second 50) succeeded_job)
    ≡ update_job_status_from_task_refs (at_second 50) succeeded_job
unfolding program
finished_stable_example = finished_stable (at_second 50) (at_second 90) succeeded_job refl refl refl

abbrev two_tasks : List Task
two_tasks = task_of failed_ref ∷ record (task_of success_ref) { retry_index = some (pos 2) } ∷ []
