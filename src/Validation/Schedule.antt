-- ===== src/Validation/Schedule.antt =====
-- pkg/execution/validation/validation.go: the checks of a JobConfig.
use furiko.Prelude.{[], ◌∷◌, ◌++◌, Option, none, some, String, if◌then◌else◌, is_empty}
use furiko.Api.JobConfig.{
  JobConfig, JobConfigSpec, JobTemplate, ConcurrencySpec, CronSchedule, ScheduleSpec,
}
use furiko.Api.Options.{OptionSpec}
use furiko.FieldError.{FieldPath, child, invalid, required, internal, ErrorList, error_at, unless}
use furiko.Options.Validate.{validate_option_spec as validate_options}
use furiko.Validation.{
  Env, max_job_config_name_len, validate_max_length, validate_job_template_spec,
  validate_concurrency_policy,
}

unfoldable pub validate_concurrency_spec : ConcurrencySpec → FieldPath → ErrorList
unfolding validate_concurrency_policy
validate_concurrency_spec spec path =
    validate_concurrency_policy spec.policy (child "policy" ∷ path)

unfoldable pub validate_option_spec : Option OptionSpec → FieldPath → ErrorList
unfolding validate_options
validate_option_spec none path = []
validate_option_spec (some spec) path = validate_options (some spec) path

module _ (env : Env) where
  unfoldable pub validate_cron_schedule_expression : String → FieldPath → ErrorList
  validate_cron_schedule_expression cron_schedule path = elim env.parses_cron [
    | none ↦ error_at internal path ∷ []
    | some parses ↦ unless (parses cron_schedule) invalid path
  ]

  unfoldable pub validate_timezone : String → FieldPath → ErrorList
  validate_timezone timezone path = unless (env.parses_timezone timezone) invalid path

  unfoldable pub validate_cron_schedule : CronSchedule → FieldPath → ErrorList
  unfolding validate_cron_schedule_expression validate_timezone
  validate_cron_schedule spec path =
      (if is_empty spec.expression
        then []
        else validate_cron_schedule_expression spec.expression (child "expression" ∷ path))
      ++ (if is_empty spec.timezone
          then []
          else validate_timezone spec.timezone (child "timezone" ∷ path))

  -- The count of schedule types is 1 with a cron schedule and 0 without.
  unfoldable pub validate_schedule_spec : Option ScheduleSpec → FieldPath → ErrorList
  unfolding validate_cron_schedule
  validate_schedule_spec none path = []
  validate_schedule_spec (some spec) path = elim spec.cron [
    | none ↦ error_at required path ∷ []
    | some cron ↦ validate_cron_schedule cron (child "cron" ∷ path)
  ]

  unfoldable pub validate_job_template : JobTemplate → FieldPath → ErrorList
  unfolding validate_job_template_spec
  validate_job_template spec path = validate_job_template_spec env spec.spec (child "spec" ∷ path)

  unfoldable pub validate_job_config_spec : JobConfigSpec → FieldPath → ErrorList
  unfolding validate_job_template validate_concurrency_spec validate_schedule_spec
      validate_option_spec
  validate_job_config_spec spec path =
      validate_job_template spec.template (child "template" ∷ path)
      ++ (validate_concurrency_spec spec.concurrency (child "concurrency" ∷ path)
          ++ (validate_schedule_spec spec.schedule (child "schedule" ∷ path)
              ++ validate_option_spec spec.option (child "option" ∷ path)))

  unfoldable pub validate_job_config : JobConfig → ErrorList
  unfolding validate_max_length validate_job_config_spec
  validate_job_config rjc =
      validate_max_length rjc.metadata.name max_job_config_name_len
        (child "name" ∷ child "metadata" ∷ [])
      ++ validate_job_config_spec rjc.spec (child "spec" ∷ [])
