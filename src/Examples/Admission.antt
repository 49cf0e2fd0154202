-- ===== src/Examples/Admission.antt =====
-- The theorems on what is filled in and checked of Jobs and JobConfigs, and on the Job of a schedule.
use Prim.Native.String.{len}
use furiko.Prelude.{
  pos, ◌≡◌, refl, ◌≤◌, true, false, ◌&&◌, [], ◌∷◌, some, none, String, leb_ℤ, IsInt64, ◌-ℤ◌, arith,
}
use furiko.Ktime.{Time, unix, of_unix, unwrap_meta_v1_time}
use furiko.Meta.{lookup}
use furiko.Decimal.{atoi}
use furiko.Api.Config.{JobExecutionConfig, JobConfigExecutionConfig}
use furiko.Api.Job.{Job, JobType}
use furiko.Api.JobConfig.{JobConfig, ScheduleSpec}
use furiko.Options.{Dates}
use furiko.Options.Variables.{or_else}
use furiko.VariableContext.{make_variables_from_job_config}
use furiko.JobConfigController.{get_label_schedule_time}
use furiko.JobConfigUtil.{
  Lookup, found, owner, validate_lookup_job_owner, new_job_from_job_config, job_with_variables,
  make_labels, generate_name,
}
use furiko.JobConfigUtil.Naming.{get_label_schedule_time-new_job}
use furiko.Mutation.{mutate_create_job, mutate_job, evaluate_with_owner, new_result}
use furiko.Mutation as Mutation
use furiko.Mutation.Creation.{mutate_create_job-owner}
use furiko.Mutation.JobConfigs.{SameSchedule, patch_update, patch_update-last_updated}
use furiko.Mutation.Priority.{evaluate_with_owner-priority}
use furiko.Validation as Validation
use furiko.Limits.{allows_start, has_room}
use furiko.Validation.{validate_job, validate_job_create}
use furiko.Validation.Accepted.{
  IsValidJob, is_nil, validate_job-IsValidJob, validate_job_create-owner,
}
use furiko.Validation.Immutable.{SameJob, validate_job_update-SameJob}
use furiko.Validation.Names.{generate_name-length}
use furiko.Options.{evaluate_options}
use furiko.Validation.Schedule.{validate_job_config}
use furiko.Validation.Update.{validate_job_update}
use furiko.Store.{new_store}
use furiko.Cron.Keys.{
  split_job_config_key_name, join_job_config_key_name, split-join_job_config_key_name,
}
use furiko.Cron.Reconcile as Reconcile
use furiko.Samples.{at_second, created_job, job_config}

abbrev now : Time
now = at_second 100

abbrev dates : Dates
dates = record { parse_rfc3339 = λ s. none; format_as_moment = λ t format. none }

abbrev jobs_config : JobExecutionConfig
jobs_config = record {
  default_ttl_seconds_after_finished = some (pos 3600);
  default_pending_timeout_seconds = none;
  delete_killing_tasks_timeout_seconds = none;
  force_delete_killing_tasks_timeout_seconds = none;
}

abbrev job_configs_config : JobConfigExecutionConfig
job_configs_config = record { max_enqueued_jobs = some (pos 20) }

abbrev lister : String → String → Lookup
lister namespace name = found job_config

-- Stand-ins for the libraries that read and write values.
abbrev pub mutation_env : Mutation.Env
mutation_env = record {
  jobs = some jobs_config;
  lister = lister;
  now = now;
  unmarshal = λ s. none;
  marshal = λ values. none;
  hash_option_spec = λ spec. none;
  dates = dates;
}

abbrev pub validation_env : Validation.Env
validation_env = record {
  validate_pod_template_spec = λ spec path. [];
  parses_cron = none;
  parses_timezone = λ timezone. true;
  job_configs = some job_configs_config;
  lister = lister;
  now = now;
}

-- The Job that is made for the schedule at second 30.
abbrev base_job : Job
base_job = job_with_variables now job_config JobType.scheduled (at_second 30) []

made : new_job_from_job_config now job_config JobType.scheduled (at_second 30) ≡ some base_job
unfolding new_job_from_job_config
made = refl

made_adhoc :
    new_job_from_job_config now job_config JobType.adhoc (at_second 0)
    ≡ some (job_with_variables now job_config JobType.adhoc (at_second 0) [])
unfolding new_job_from_job_config
made_adhoc = refl

fits : IsInt64 (unix (at_second 30))
unfolding unix ◌-ℤ◌
fits = record { above = omega arith; below = omega arith }

mutate_create_job-owner_example :
    validate_lookup_job_owner (mutate_create_job mutation_env created_job).0 (lister "default")
    ≡ owner job_config
mutate_create_job-owner_example =
    mutate_create_job-owner mutation_env created_job
      (job_with_variables now job_config JobType.adhoc (at_second 0) []) job_config refl refl refl
      made_adhoc

evaluate_with_owner-priority_example :
    lookup "jobconfig.name"
      (evaluate_with_owner mutation_env
        (record created_job {
          spec = record (created_job.spec) { substitutions = ("job.name", "x") ∷ [] };
        })
        new_result
        (some job_config)).0.spec.substitutions
    ≡ or_else (lookup "jobconfig.name" (("job.name", "x") ∷ [])) (
        or_else
          (lookup "jobconfig.name" [])
          (lookup "jobconfig.name" (make_variables_from_job_config job_config)))
unfolding evaluate_options
evaluate_with_owner-priority_example =
    evaluate_with_owner-priority mutation_env
      (record created_job {
        spec = record (created_job.spec) { substitutions = ("job.name", "x") ∷ [] };
      })
      job_config new_result [] refl refl "jobconfig.name"

validate_job-IsValidJob_example : IsValidJob created_job
unfolding validate_job
validate_job-IsValidJob_example = validate_job-IsValidJob validation_env created_job refl

validate_job_update-SameJob_example : SameJob created_job created_job
unfolding validate_job_update
validate_job_update-SameJob_example = validate_job_update-SameJob now created_job created_job refl

validate_job_create-owner_example :
    is_nil validation_env (validate_job_create validation_env base_job)
    ≡ (allows_start none (pos 0) && has_room (some (pos 20)) (pos 0))
unfolding validate_lookup_job_owner make_labels
validate_job_create-owner_example =
    validate_job_create-owner validation_env base_job job_config job_configs_config refl refl

generate_name-length_example : len (generate_name now "config-1" (at_second 30)) ≤ 60
unfolding validate_job_config unix ◌-ℤ◌
generate_name-length_example =
    generate_name-length validation_env job_config now (at_second 30) 1_640_995_230 refl refl refl
      (omega arith)

abbrev schedule : ScheduleSpec
schedule = record {
  cron = some (record { expression = "* * * * *"; timezone = "" });
  disabled = false;
  constraints = none;
  last_updated = none;
}

abbrev scheduled_config : JobConfig
scheduled_config = record job_config {
  spec = record (job_config.spec) { schedule = some schedule };
}

was_unscheduled : SameSchedule job_config.spec.schedule schedule → ⊥
was_unscheduled (o, e, cron, constraints, disabled) = absurd (cc e)

patch_update-last_updated_example :
    (updated : ScheduleSpec) × ((patch_update now job_config scheduled_config).spec.schedule
      ≡ some updated)
    × (leb_ℤ now (unwrap_meta_v1_time updated.last_updated) ≡ true)
    × (updated.cron ≡ schedule.cron)
    × (updated.constraints ≡ none)
    × (updated.disabled ≡ false)
patch_update-last_updated_example =
    patch_update-last_updated now job_config scheduled_config schedule refl was_unscheduled

get_label_schedule_time-new_job_example :
    get_label_schedule_time atoi base_job ≡ some (of_unix (unix (at_second 30)))
get_label_schedule_time-new_job_example =
    get_label_schedule_time-new_job now (at_second 30) job_config base_job fits made

split-join_job_config_key_name_example :
    split_job_config_key_name (join_job_config_key_name "default/a.b" (at_second 30))
    ≡ some ("default/a.b", of_unix (unix (at_second 30)))
split-join_job_config_key_name_example =
    split-join_job_config_key_name "default/a.b" (at_second 30) fits

abbrev reconcile_env : Reconcile.Env
reconcile_env = record {
  now = now;
  job_configs = some job_configs_config;
  lister = lister;
  store = new_store;
  job_exists = λ namespace name. Reconcile.not_found;
  create = λ rj. Reconcile.created rj;
}
