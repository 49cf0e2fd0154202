-- ===== src/Validation/Accepted.antt =====
-- What the checks guarantee of a Job that passed them.
use Prim.Native.String.{len}
use furiko.Prelude.{
  ◌≤◌, ℤ, pos, ◌≤ℤ◌, Bool, true, false, ◌&&◌, [], ◌∷◌, Option, none, some, ◌≡◌, refl, arith, str_eq,
}
use furiko.Api.Config.{JobConfigExecutionConfig}
use furiko.Api.Job.{Job, JobType, JobTemplateSpec}
use furiko.Api.JobConfig.{JobConfig}
use furiko.Limits.{allows_start, has_room}
use furiko.FieldError.{FieldPath, child, ErrorList, append-nil, unless-nil}
use furiko.JobConfigUtil.{validate_lookup_job_owner, owner}
use furiko.Validation.{
  Env, max_job_name_len, validate_job, validate_job_metadata, validate_job_spec, validate_job_type,
  validate_start_policy_spec, validate_max_length, validate_job_template_spec,
  validate_job_task_spec, validate_task_template, validate_non_negative, check_template,
  check_max_attempts, validate_max_retry_attempts, validate_gt, validate_lte, validate_job_create,
  validate_job_create_with_job_config,
}

abbrev pub OnSome {ℓ κ} : {A : Type ℓ} → (A → Type κ) → Option A → Type κ
OnSome P none = Unit
OnSome P (some a) = P a

abbrev pub IsNonNegative : Option ℤ → Type 0
IsNonNegative o = OnSome (λ n. pos 0 ≤ℤ n) o

-- A template with bounds on its attempts and delays, and a pod that does not always restart.
pub record IsValidTemplate (template : JobTemplateSpec) : Type 0 where
  pub attempts : OnSome (λ n. (pos 1 ≤ℤ n) × (n ≤ℤ pos 50)) template.max_attempts
  pub delay : IsNonNegative template.retry_delay_seconds
  pub timeout : IsNonNegative template.task.pending_timeout_seconds
  pub restarts : str_eq template.task.template.spec.restart_policy "Always" ≡ false

abbrev is_known_type : JobType → Bool
is_known_type JobType.adhoc = true
is_known_type JobType.scheduled = true
is_known_type (JobType.other s) = false

pub record IsValidJob (rj : Job) : Type 0 where
  pub name : len rj.metadata.name ≤ max_job_name_len
  pub known : is_known_type rj.spec.job_type ≡ true
  pub template : (t : JobTemplateSpec) × (rj.spec.template ≡ some t) × IsValidTemplate t
  pub ttl : IsNonNegative rj.spec.ttl_seconds_after_finished

non_negative :
    (o : Option ℤ) (path : FieldPath) → validate_non_negative o path ≡ [] → IsNonNegative o
non_negative none path e = tt
non_negative (some n) path e = ground arith

max_attempts_bounds :
    (o : Option ℤ) (path : FieldPath)
    → check_max_attempts o path ≡ []
    → OnSome (λ n. (pos 1 ≤ℤ n) × (n ≤ℤ pos 50)) o
unfolding validate_max_retry_attempts validate_gt validate_lte
max_attempts_bounds none path e = tt
max_attempts_bounds (some n) path e = ground arith

module _ (env : Env) where
  restart_policy :
      (template : JobTemplateSpec) (path : FieldPath)
      → validate_task_template env template.task.template path ≡ []
      → str_eq template.task.template.spec.restart_policy "Always" ≡ false
  unfolding validate_task_template
  restart_policy template path e =
      let (pod, restart) =
        append-nil (env.validate_pod_template_spec template.task.template path) _ e in
      ground (arith, unless-nil _ _ _ restart)

  template_IsValid :
      (template : JobTemplateSpec) (path : FieldPath)
      → validate_job_template_spec env template path ≡ []
      → IsValidTemplate template
  unfolding validate_job_template_spec validate_job_task_spec
  template_IsValid template path e =
      let (task, rest) =
        append-nil (validate_job_task_spec env template.task (child "task" ∷ path)) _ e in
      let (pod, timeout) = append-nil _ _ task in
      let (attempts, delay) =
        append-nil (check_max_attempts template.max_attempts (child "maxAttempts" ∷ path)) _ rest in
      record {
        attempts = max_attempts_bounds template.max_attempts (child "maxAttempts" ∷ path) attempts;
        delay = non_negative template.retry_delay_seconds (child "retryDelaySeconds" ∷ path) delay;
        timeout =
            non_negative template.task.pending_timeout_seconds
              (child "pendingTimeoutSeconds" ∷ child "task" ∷ path) timeout;
        restarts = restart_policy template (child "template" ∷ child "task" ∷ path) pod;
      }

  known_type :
      (t : JobType) (path : FieldPath) → validate_job_type t path ≡ [] → is_known_type t ≡ true
  unfolding validate_job_type
  known_type JobType.adhoc path e = refl
  known_type JobType.scheduled path e = refl
  known_type (JobType.other s) path e = ground arith

  valid_template :
      (o : Option JobTemplateSpec) (path : FieldPath)
      → check_template env o path ≡ []
      → (t : JobTemplateSpec) × (o ≡ some t) × IsValidTemplate t
  valid_template none path e = absurd (cc)
  valid_template (some t) path e = (t, refl, template_IsValid t path e)

  -- A Job that passes ValidateJob has a name of at most 60 bytes, a known type, a template with 1
  -- to 50 attempts if it says a number, no negative delay, timeout or TTL, and a pod that does not
  -- always restart.
  pub validate_job-IsValidJob : (rj : Job) → validate_job env rj ≡ [] → IsValidJob rj
  unfolding validate_job validate_job_spec validate_job_metadata validate_max_length
  validate_job-IsValidJob rj e =
      let path = child "spec" ∷ [] in
      let (metadata, spec) =
        append-nil (validate_job_metadata rj.metadata (child "metadata" ∷ [])) _ e in
      let (job_type, rest) =
        append-nil (validate_job_type rj.spec.job_type (child "type" ∷ path)) _ spec in
      let (start, rest') =
        append-nil (validate_start_policy_spec rj.spec.start_policy (child "startPolicy" ∷ path)) _
          rest in
      let (template, ttl) =
        append-nil (check_template env rj.spec.template (child "template" ∷ path)) _ rest' in
      record {
        name = ground arith;
        known = known_type rj.spec.job_type (child "type" ∷ path) job_type;
        template = valid_template rj.spec.template (child "template" ∷ path) template;
        ttl =
            non_negative rj.spec.ttl_seconds_after_finished (child "ttlSecondsAfterFinished" ∷ path)
              ttl;
      }

  abbrev pub is_nil : ErrorList → Bool
  is_nil [] = true
  is_nil (x ∷ xs) = false

  -- A Job of a JobConfig that is found as its owner may be created exactly if its policy is not
  -- Forbid or no Job of the JobConfig is active, and fewer Jobs of it are queued than the limit
  -- says, if any, where the configuration is loaded.
  pub validate_job_create-owner :
      (rj : Job) (rjc : JobConfig) (cfg : JobConfigExecutionConfig)
      → validate_lookup_job_owner rj (env.lister rj.metadata.namespace) ≡ owner rjc
      → env.job_configs ≡ some cfg
      → is_nil (validate_job_create env rj) ≡ (
          allows_start rj.spec.start_policy rjc.status.active
          && has_room cfg.max_enqueued_jobs rjc.status.queued)
  unfolding validate_job_create validate_job_create_with_job_config
  validate_job_create-owner rj rjc cfg owned loaded = ground arith
