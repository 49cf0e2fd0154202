-- ===== src/Validation/Update.antt =====
-- pkg/execution/validation/validation.go: the checks of an update of a Job.
use furiko.Prelude.{not, ◌&&◌, [], ◌∷◌, ◌++◌, Option, none, some, if◌then◌else◌, str_eq, eqb_ℤ}
use furiko.Ktime.{Time, is_zero_ptr, is_time_set_and_earlier}
use furiko.Meta.{lookup}
use furiko.Api.Meta.{ObjectMeta, label_key_job_config_uid}
use furiko.Api.Job.{Job, JobSpec, JobTemplateSpec}
use furiko.FieldError.{FieldPath, child, key, invalid, ErrorList, unless}
use furiko.Equality.{
  equal_option, equal_map, equal_job_task_spec, equal_start_policy, job_type_string,
}
use furiko.JobConfigUtil.{label_value}
use furiko.Validation.{validate_immutable}

unfoldable pub validate_job_metadata_update : ObjectMeta → ObjectMeta → FieldPath → ErrorList
unfolding lookup
validate_job_metadata_update old_metadata metadata path =
    validate_immutable
      (str_eq (label_value (lookup label_key_job_config_uid metadata.labels))
        (label_value (lookup label_key_job_config_uid old_metadata.labels)))
      (key label_key_job_config_uid ∷ child "labels" ∷ path)

unfoldable pub validate_job_template_spec_immutable :
    JobTemplateSpec → JobTemplateSpec → FieldPath → ErrorList
unfolding equal_map
validate_job_template_spec_immutable old_template template path =
    validate_immutable (equal_job_task_spec old_template.task template.task) (child "task" ∷ path)
    ++ (validate_immutable (equal_option eqb_ℤ old_template.max_attempts template.max_attempts)
          (child "maxAttempts" ∷ path)
        ++ validate_immutable
            (equal_option eqb_ℤ old_template.retry_delay_seconds template.retry_delay_seconds)
            (child "retryDelaySeconds" ∷ path))

-- `none` is the panic on a nil template.
abbrev pub check_templates :
    Option JobTemplateSpec → Option JobTemplateSpec → FieldPath → Option ErrorList
check_templates (some old_template) (some template) path =
    some (validate_job_template_spec_immutable old_template template path)
check_templates _ _ path = none

-- `now` is what the clock answers.
unfoldable pub validate_kill_timestamp_update :
    Time → Option Time → Option Time → FieldPath → ErrorList
unfolding is_time_set_and_earlier
validate_kill_timestamp_update now old_timestamp timestamp path =
    unless
      (not (
        is_time_set_and_earlier now old_timestamp
        && not (equal_option eqb_ℤ old_timestamp timestamp)))
      invalid path

unfoldable pub validate_job_spec_update : Time → JobSpec → JobSpec → FieldPath → Option ErrorList
unfolding equal_map validate_job_template_spec_immutable validate_kill_timestamp_update
validate_job_spec_update now old_spec spec path =
    elim (check_templates old_spec.template spec.template (child "template" ∷ path)) [
      | none ↦ none
      | some template_errors ↦ some (
          validate_immutable (str_eq old_spec.config_name spec.config_name)
            (child "configName" ∷ path)
          ++ (validate_immutable
                (str_eq (job_type_string old_spec.job_type) (job_type_string spec.job_type))
                (child "type" ∷ path)
              ++ (validate_immutable (str_eq old_spec.option_values spec.option_values)
                    (child "optionValues" ∷ path)
                  ++ (validate_immutable (equal_map old_spec.substitutions spec.substitutions)
                        (child "substitutions" ∷ path)
                      ++ (template_errors
                          ++ validate_kill_timestamp_update now old_spec.kill_timestamp
                              spec.kill_timestamp (child "killTimestamp" ∷ path))))))
    ]

abbrev pub check_start_policy : Job → Job → ErrorList
check_start_policy old_rj rj =
    if not (is_zero_ptr rj.status.start_time)
    then validate_immutable
        (equal_option equal_start_policy old_rj.spec.start_policy rj.spec.start_policy)
        (child "spec.startPolicy" ∷ [])
    else []

unfoldable pub validate_job_update : Time → Job → Job → Option ErrorList
unfolding validate_job_metadata_update validate_job_spec_update
validate_job_update now old_rj rj =
    elim (validate_job_spec_update now old_rj.spec rj.spec (child "spec" ∷ [])) [
      | none ↦ none
      | some spec_errors ↦ some (
          validate_job_metadata_update old_rj.metadata rj.metadata (child "metadata" ∷ [])
          ++ (spec_errors ++ check_start_policy old_rj rj))
    ]
