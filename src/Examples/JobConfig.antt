-- ===== src/Examples/JobConfig.antt =====
-- The theorems on the status of a JobConfig, for one with a started and a queued Job.
use furiko.Prelude.{ℤ, pos, ◌≡◌, true, ◌||◌, List, [], ◌∷◌, Option, some, none, All, String}
use furiko.Ktime.{zero_time, unwrap_meta_v1_time}
use furiko.Api.Job.{Job}
use furiko.JobConfigController.{update_status, get_label_schedule_time}
use furiko.JobConfigController.Status.{is_at_most, update_status-last_scheduled}
use furiko.Samples.{started_job, created_job, job_config}

-- A stand-in for strconv.Atoi, which reads one text.
abbrev atoi : String → Option ℤ
atoi text = some (pos 1_640_995_200)

abbrev jobs : List Job
jobs = started_job ∷ created_job ∷ []

update_status-last_scheduled_example :
    let new = unwrap_meta_v1_time (update_status atoi job_config jobs).status.last_scheduled in
    (is_at_most atoi none new ≡ true)
    × All
        (λ rj.
          (is_at_most atoi (get_label_schedule_time atoi rj) new
            || is_at_most atoi (get_label_schedule_time atoi rj) zero_time)
          ≡ true)
        jobs
update_status-last_scheduled_example = update_status-last_scheduled atoi job_config jobs
