-- ===== src/Validation/Immutable.antt =====
-- What an accepted update of a Job leaves as it was.
use furiko.Prelude.{
  true, false, [], ◌∷◌, ◌++◌, Option, none, some, String, ◌≡◌, refl, ap, ◌∙◌, sym, arith, str_eq,
  Option-cases, inl, inr, eqb_ℤ,
}
use furiko.Ktime.{Time, is_zero_ptr, is_time_set_and_earlier}
use furiko.Meta.{lookup, StringMap}
use furiko.Api.Meta.{label_key_job_config_uid}
use furiko.Api.Job.{Job, JobSpec, JobTaskSpec, JobTemplateSpec}
use furiko.FieldError.{FieldPath, child, ErrorList, append-nil, unless-nil}
use furiko.Equality.{
  equal_option, equal_map, equal_map-lookup, equal_job_task_spec, equal_start_policy,
  job_type_string, equal_pod_spec, equal_pod_spec-IsSound, equal_option-IsSound, eqb_ℤ-IsSound,
  str_eq-IsSound,
}
use furiko.JobConfigUtil.{label_value}
use furiko.Validation.{validate_immutable}
use furiko.Validation.Update.{
  validate_job_update, validate_job_metadata_update, validate_job_spec_update,
  validate_kill_timestamp_update, validate_job_template_spec_immutable, check_templates,
  check_start_policy,
}

-- The same value for each key.
abbrev pub SameMap : StringMap → StringMap → Type 0
SameMap m m' = (key : String) → lookup key m ≡ lookup key m'

pub record SameTemplate (old new : JobTemplateSpec) : Type 0 where
  pub labels : SameMap old.task.template.labels new.task.template.labels
  pub annotations : SameMap old.task.template.annotations new.task.template.annotations
  pub pod_spec : old.task.template.spec ≡ new.task.template.spec
  pub pending_timeout : old.task.pending_timeout_seconds ≡ new.task.pending_timeout_seconds
  pub max_attempts : old.max_attempts ≡ new.max_attempts
  pub retry_delay : old.retry_delay_seconds ≡ new.retry_delay_seconds

-- What no update changes.
pub record SameJob (old new : Job) : Type 0 where
  pub uid_label :
      label_value (lookup label_key_job_config_uid old.metadata.labels)
      ≡ label_value (lookup label_key_job_config_uid new.metadata.labels)
  pub config_name : old.spec.config_name ≡ new.spec.config_name
  pub job_type : job_type_string old.spec.job_type ≡ job_type_string new.spec.job_type
  pub option_values : old.spec.option_values ≡ new.spec.option_values
  pub substitutions : SameMap old.spec.substitutions new.spec.substitutions
  pub template :
      (t t' : JobTemplateSpec) × (old.spec.template ≡ some t)
      × (new.spec.template ≡ some t')
      × SameTemplate t t'

-- What equal tasks have in common.
task_parts :
    (old new : JobTaskSpec)
    → equal_job_task_spec old new ≡ true
    → (equal_map old.template.labels new.template.labels ≡ true)
      × (equal_map old.template.annotations new.template.annotations ≡ true)
      × (equal_pod_spec old.template.spec new.template.spec ≡ true)
      × (equal_option eqb_ℤ old.pending_timeout_seconds new.pending_timeout_seconds ≡ true)
task_parts old new e = (ground arith, ground arith, ground arith, ground arith)

same_template :
    (old new : JobTemplateSpec) (path : FieldPath)
    → validate_job_template_spec_immutable old new path ≡ []
    → SameTemplate old new
unfolding validate_job_template_spec_immutable
same_template old new path e =
    let (task, rest) =
      append-nil (validate_immutable (equal_job_task_spec old.task new.task) (child "task" ∷ path))
        _ e in
    let (attempts, delay) =
      append-nil
        (validate_immutable (equal_option eqb_ℤ old.max_attempts new.max_attempts)
          (child "maxAttempts" ∷ path))
        _ rest in
    let (labels, annotations, spec, timeout) =
      task_parts old.task new.task (unless-nil _ _ _ task) in
    let same = equal_option-IsSound eqb_ℤ eqb_ℤ-IsSound in
    record {
      labels = equal_map-lookup _ _ labels;
      annotations = equal_map-lookup _ _ annotations;
      pod_spec = equal_pod_spec-IsSound _ _ spec;
      pending_timeout = same _ _ timeout;
      max_attempts = same _ _ (unless-nil _ _ _ attempts);
      retry_delay = same _ _ (unless-nil _ _ _ delay);
    }

-- The parts of an update that is accepted.
update_parts :
    (now : Time) (old new : Job)
    → validate_job_update now old new ≡ some []
    → (validate_job_metadata_update old.metadata new.metadata (child "metadata" ∷ []) ≡ [])
      × (validate_job_spec_update now old.spec new.spec (child "spec" ∷ []) ≡ some [])
      × (check_start_policy old new ≡ [])
unfolding validate_job_update
update_parts now old new e =
    elim (Option-cases (validate_job_spec_update now old.spec new.spec (child "spec" ∷ []))) [
      | inl h ↦ absurd (ground arith)
      | inr (errs, h) ↦
          let sum : validate_job_metadata_update old.metadata new.metadata (child "metadata" ∷ [])
                ++ (errs ++ check_start_policy old new)
              ≡ [] =
            ground arith in
          let (metadata, rest) = append-nil _ _ sum in
          let (spec, start) = append-nil errs _ rest in (metadata, h ∙ ap some spec, start)
    ]

check_templates-some :
    (old new : Option JobTemplateSpec) (path : FieldPath) (errs : ErrorList)
    → check_templates old new path ≡ some errs
    → (t t' : JobTemplateSpec) × (old ≡ some t)
      × (new ≡ some t')
      × (errs ≡ validate_job_template_spec_immutable t t' path)
check_templates-some none new path errs e = absurd (cc)
check_templates-some (some t) none path errs e = absurd (cc)
check_templates-some (some t) (some t') path errs e = (t, t', refl, refl, cc)

-- What an update without an error in its spec leaves as it was.
record SameSpec (now : Time) (old new : JobSpec) : Type 0 where
  config_name : old.config_name ≡ new.config_name
  job_type : job_type_string old.job_type ≡ job_type_string new.job_type
  option_values : old.option_values ≡ new.option_values
  substitutions : SameMap old.substitutions new.substitutions
  template :
      (t t' : JobTemplateSpec) × (old.template ≡ some t)
      × (new.template ≡ some t')
      × SameTemplate t t'
  kill_timestamp :
      validate_kill_timestamp_update now old.kill_timestamp new.kill_timestamp
        (child "killTimestamp" ∷ child "spec" ∷ [])
      ≡ []

spec_parts :
    (now : Time) (old new : JobSpec)
    → validate_job_spec_update now old new (child "spec" ∷ []) ≡ some []
    → SameSpec now old new
unfolding validate_job_spec_update
spec_parts now old new e =
    let path = child "spec" ∷ [] in
    let at = child "template" ∷ path in
    elim (Option-cases (check_templates old.template new.template at)) [
      | inl h ↦ absurd (ground arith)
      | inr (errs, h) ↦
          let (t, t', had, has, same) = check_templates-some old.template new.template at errs h in
          let kill =
            validate_kill_timestamp_update now old.kill_timestamp new.kill_timestamp
              (child "killTimestamp" ∷ path) in
          let sum : validate_immutable (str_eq old.config_name new.config_name)
                  (child "configName" ∷ path)
                ++ (validate_immutable
                      (str_eq (job_type_string old.job_type) (job_type_string new.job_type))
                      (child "type" ∷ path)
                    ++ (validate_immutable (str_eq old.option_values new.option_values)
                          (child "optionValues" ∷ path)
                        ++ (validate_immutable (equal_map old.substitutions new.substitutions)
                              (child "substitutions" ∷ path)
                            ++ (errs ++ kill))))
              ≡ [] =
            ground arith in
          let (config_name, rest) = append-nil _ _ sum in
          let (job_type, rest1) = append-nil _ _ rest in
          let (option_values, rest2) = append-nil _ _ rest1 in
          let (substitutions, rest3) = append-nil _ _ rest2 in
          let (template, kill_timestamp) = append-nil errs _ rest3 in
          record {
            config_name = str_eq-IsSound _ _ (unless-nil _ _ _ config_name);
            job_type = str_eq-IsSound _ _ (unless-nil _ _ _ job_type);
            option_values = str_eq-IsSound _ _ (unless-nil _ _ _ option_values);
            substitutions = equal_map-lookup _ _ (unless-nil _ _ _ substitutions);
            template = (t, t', had, has, same_template t t' at (sym same ∙ template));
            kill_timestamp = kill_timestamp;
          }
    ]

-- An update that is accepted leaves the JobConfig's UID label, the name of the JobConfig, the
-- type, the option values, the substitutions, the pod spec of the task, its labels and
-- annotations, its pending timeout, the number of attempts and the retry delay as they were.
pub validate_job_update-SameJob :
    (now : Time) (old new : Job) → validate_job_update now old new ≡ some [] → SameJob old new
unfolding validate_job_metadata_update
validate_job_update-SameJob now old new e =
    let (metadata, spec, start) = update_parts now old new e in
    let same = spec_parts now old.spec new.spec spec in
    record {
      uid_label = sym (str_eq-IsSound _ _ (unless-nil _ _ _ metadata));
      config_name = same.config_name;
      job_type = same.job_type;
      option_values = same.option_values;
      substitutions = same.substitutions;
      template = same.template;
    }

-- A kill timestamp that has passed is not changed by an update that is accepted.
pub validate_job_update-kill_timestamp :
    (now : Time) (old new : Job)
    → validate_job_update now old new ≡ some []
    → is_time_set_and_earlier now old.spec.kill_timestamp ≡ true
    → new.spec.kill_timestamp ≡ old.spec.kill_timestamp
unfolding validate_kill_timestamp_update
validate_job_update-kill_timestamp now old new e passed =
    let (metadata, spec, start) = update_parts now old new e in
    let same = spec_parts now old.spec new.spec spec in
    sym (
      equal_option-IsSound eqb_ℤ eqb_ℤ-IsSound old.spec.kill_timestamp new.spec.kill_timestamp
        (ground arith))

-- Once a Job is started, an update that is accepted does not change its start policy.
pub validate_job_update-start_policy :
    (now : Time) (old new : Job)
    → validate_job_update now old new ≡ some []
    → is_zero_ptr new.status.start_time ≡ false
    → equal_option equal_start_policy old.spec.start_policy new.spec.start_policy ≡ true
validate_job_update-start_policy now old new e started =
    let (metadata, spec, start) = update_parts now old new e in ground arith
