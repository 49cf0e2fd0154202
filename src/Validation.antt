-- ===== src/Validation.antt =====
-- pkg/execution/validation and pkg/core/validation: what is checked of a Job or a JobConfig before it is
-- admitted. Kubernetes' ValidateImmutableField and ValidateNonnegativeField are taken as documented.
pub mod Schedule
pub mod Update
pub mod Accepted
pub mod Immutable
pub mod Names
use Prim.Native.String.{len}
use furiko.Prelude.{
  ℕ, ℤ, pos, Bool, true, false, not, ◌&&◌, ◌||◌, List, [], ◌∷◌, ◌++◌, Option, none, some, String,
  if◌then◌else◌, is_empty, ltb, ltb_ℤ, leb_ℤ, str_eq,
}
use furiko.Ktime.{Time}
use furiko.Api.Meta.{ObjectMeta}
use furiko.Api.Config.{JobConfigExecutionConfig}
use furiko.Api.Pod.{PodTemplateSpec}
use furiko.Api.Job.{
  Job, JobSpec, JobType, ConcurrencyPolicy, StartPolicySpec, JobTaskSpec, JobTemplateSpec,
}
use furiko.Api.JobConfig.{JobConfig}
use furiko.FieldError.{
  FieldPath, child, invalid, required, not_supported, forbidden, internal, ErrorList, error_at,
  unless,
}
use furiko.JobConfigUtil.{Lookup, validate_lookup_job_owner, no_owner, owner, errors}

-- What the checks ask of other code: Kubernetes' own checks of a PodTemplateSpec, the cron parser
-- (none where its configuration cannot be loaded), the time zones, the configuration, the lister of
-- the JobConfigs of a namespace, and the clock.
pub record Env : Type 0 where
  pub validate_pod_template_spec : PodTemplateSpec → FieldPath → ErrorList
  pub parses_cron : Option (String → Bool)
  pub parses_timezone : String → Bool
  pub job_configs : Option JobConfigExecutionConfig
  pub lister : String → String → Lookup
  pub now : Time

abbrev pub max_job_config_name_len : ℕ
max_job_config_name_len = 49

abbrev pub max_job_name_len : ℕ
max_job_name_len = 60

unfoldable pub validate_max_length : String → ℕ → FieldPath → ErrorList
validate_max_length val max_len path = unless (not (ltb max_len (len val))) invalid path

unfoldable pub validate_gt : ℤ → ℤ → FieldPath → ErrorList
validate_gt value minimum path = unless (not (leb_ℤ value minimum)) invalid path

unfoldable pub validate_lte : ℤ → ℤ → FieldPath → ErrorList
validate_lte value maximum path = unless (not (ltb_ℤ maximum value)) invalid path

abbrev pub validate_immutable : Bool → FieldPath → ErrorList
validate_immutable equal path = unless equal invalid path

abbrev pub validate_non_negative : Option ℤ → FieldPath → ErrorList
validate_non_negative none path = []
validate_non_negative (some value) path = unless (leb_ℤ (pos 0) value) invalid path

unfoldable pub validate_concurrency_policy : ConcurrencyPolicy → FieldPath → ErrorList
validate_concurrency_policy (ConcurrencyPolicy.other s) path =
    if is_empty s then error_at required path ∷ [] else error_at not_supported path ∷ []
validate_concurrency_policy _ path = []

unfoldable pub validate_job_type : JobType → FieldPath → ErrorList
validate_job_type (JobType.other s) path =
    if is_empty s then error_at required path ∷ [] else error_at not_supported path ∷ []
validate_job_type _ path = []

unfoldable pub validate_start_policy_spec : Option StartPolicySpec → FieldPath → ErrorList
unfolding validate_concurrency_policy
validate_start_policy_spec none path = []
validate_start_policy_spec (some spec) path =
    validate_concurrency_policy spec.concurrency_policy (child "concurrencyPolicy" ∷ path)

unfoldable pub validate_max_retry_attempts : ℤ → FieldPath → ErrorList
unfolding validate_gt validate_lte
validate_max_retry_attempts attempts path =
    validate_gt attempts (pos 0) path ++ validate_lte attempts (pos 50) path

abbrev check_max_attempts : Option ℤ → FieldPath → ErrorList
check_max_attempts none path = []
check_max_attempts (some attempts) path = validate_max_retry_attempts attempts path

unfoldable pub validate_job_metadata : ObjectMeta → FieldPath → ErrorList
unfolding validate_max_length
validate_job_metadata metadata path =
    validate_max_length metadata.name max_job_name_len (child "name" ∷ path)

module _ (env : Env) where
  unfoldable pub validate_task_template : PodTemplateSpec → FieldPath → ErrorList
  validate_task_template spec path =
      env.validate_pod_template_spec spec path
      ++ unless (not (str_eq spec.spec.restart_policy "Always")) invalid
          (child "spec.restartPolicy" ∷ path)

  unfoldable pub validate_job_task_spec : JobTaskSpec → FieldPath → ErrorList
  unfolding validate_task_template
  validate_job_task_spec spec path =
      validate_task_template spec.template (child "template" ∷ path)
      ++ validate_non_negative spec.pending_timeout_seconds (child "pendingTimeoutSeconds" ∷ path)

  unfoldable pub validate_job_template_spec : JobTemplateSpec → FieldPath → ErrorList
  unfolding validate_job_task_spec validate_max_retry_attempts
  validate_job_template_spec template path =
      validate_job_task_spec template.task (child "task" ∷ path)
      ++ (check_max_attempts template.max_attempts (child "maxAttempts" ∷ path)
          ++ validate_non_negative template.retry_delay_seconds (child "retryDelaySeconds" ∷ path))

  abbrev check_template : Option JobTemplateSpec → FieldPath → ErrorList
  check_template none path = error_at required path ∷ []
  check_template (some template) path = validate_job_template_spec template path

  unfoldable pub validate_job_spec : JobSpec → FieldPath → ErrorList
  unfolding validate_job_type validate_start_policy_spec validate_job_template_spec
  validate_job_spec spec path =
      validate_job_type spec.job_type (child "type" ∷ path)
      ++ (validate_start_policy_spec spec.start_policy (child "startPolicy" ∷ path)
          ++ (check_template spec.template (child "template" ∷ path)
              ++ validate_non_negative spec.ttl_seconds_after_finished
                  (child "ttlSecondsAfterFinished" ∷ path)))

  unfoldable pub validate_job : Job → ErrorList
  unfolding validate_job_metadata validate_job_spec
  validate_job rj =
      validate_job_metadata rj.metadata (child "metadata" ∷ [])
      ++ validate_job_spec rj.spec (child "spec" ∷ [])

  abbrev is_forbid : Option StartPolicySpec → Bool
  is_forbid none = false
  is_forbid (some spec) = elim spec.concurrency_policy [
    | ConcurrencyPolicy.forbid ↦ true
    | _ ↦ false
  ]

  abbrev is_queue_full : JobConfigExecutionConfig → JobConfig → Bool
  is_queue_full cfg rjc = elim cfg.max_enqueued_jobs [
    | none ↦ false
    | some max ↦ leb_ℤ max rjc.status.queued
  ]

  unfoldable pub validate_job_create_with_job_config :
      Job → JobConfig → JobConfigExecutionConfig → ErrorList
  validate_job_create_with_job_config rj rjc cfg =
      unless (not (is_forbid rj.spec.start_policy && ltb_ℤ (pos 0) rjc.status.active)) forbidden
        (child "spec.startPolicy.concurrencyPolicy" ∷ [])
      ++ unless (not (is_queue_full cfg rjc)) forbidden (child "spec.startPolicy" ∷ [])

  abbrev check_create : Job → Option JobConfigExecutionConfig → Option JobConfig → ErrorList
  check_create rj none rjc = error_at internal (child "" ∷ []) ∷ []
  check_create rj (some cfg) none = []
  check_create rj (some cfg) (some rjc) = validate_job_create_with_job_config rj rjc cfg

  unfoldable pub validate_job_create : Job → ErrorList
  unfolding validate_lookup_job_owner validate_job_create_with_job_config
  validate_job_create rj = elim (validate_lookup_job_owner rj (env.lister rj.metadata.namespace)) [
    | errors errs ↦ errs
    | no_owner ↦ check_create rj env.job_configs none
    | owner rjc ↦ check_create rj env.job_configs (some rjc)
  ]
