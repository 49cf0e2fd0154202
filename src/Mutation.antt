-- ===== src/Mutation.antt =====
-- pkg/execution/mutation and pkg/runtime/webhook/result.go: what is filled in of a Job or a JobConfig
-- before it is admitted. A method that changes its argument answers the changed one with its Result.
pub mod JobConfigs
pub mod Defaulting
pub mod Creation
pub mod Priority
use furiko.Prelude.{
  ℤ, pos, Bool, true, false, not, ◌&&◌, ◌||◌, List, [], ◌∷◌, ◌++◌, Option, none, some, String,
  if◌then◌else◌, is_empty, str_append, is_some,
}
use furiko.Ktime.{Time}
use furiko.Meta.{StringMap, lookup, insert, contains_finalizer, merge_finalizers}
use furiko.Api.Meta.{
  ObjectMeta, delete_dependents_finalizer, label_key_job_config_uid,
  annotation_key_option_spec_hash,
}
use furiko.Api.Config.{JobExecutionConfig}
use furiko.Api.Pod.{PodSpec, PodTemplateSpec}
use furiko.Api.Options.{OptionSpec}
use furiko.Api.Job.{Job, JobSpec, JobType, JobTemplateSpec, ConcurrencyPolicy, StartPolicySpec}
use furiko.Api.JobConfig.{JobConfig}
use furiko.FieldError.{FieldPath, child, invalid, not_found, internal, ErrorList, error_at}
use furiko.Options.{Value, Dates, evaluate_options}
use furiko.Options.Variables.{insert_all, merge_substitutions}
use furiko.VariableContext.{make_variables_from_job_config}
use furiko.JobConfigUtil.{
  Owner, Lookup, found, missing, failed, label_value, validate_lookup_job_owner, owner, no_owner,
  errors, new_job_from_job_config,
}

pub record Result : Type 0 where
  pub errors : ErrorList
  pub warnings : List String

abbrev pub new_result : Result
new_result = record { errors = []; warnings = [] }

-- `r.Merge(other)`.
unfoldable pub merge : Result → Result → Result
merge r other = record {
  errors = r.errors ++ other.errors;
  warnings = r.warnings ++ other.warnings;
}

abbrev pub with_error : ErrorList → Result
with_error errs = record { errors = errs; warnings = [] }

abbrev pub with_warnings : List String → Result
with_warnings warnings = record { errors = []; warnings = warnings }

-- What the mutations ask of other code: the configuration, the lister of the JobConfigs of a
-- namespace, the clock, the JSON and YAML libraries, the hash of an OptionSpec, and the dates.
pub record Env : Type 0 where
  pub jobs : Option JobExecutionConfig
  pub lister : String → String → Lookup
  pub now : Time
  pub unmarshal : String → Option (List (String × Value))
  pub marshal : List (String × Value) → Option String
  pub hash_option_spec : Option OptionSpec → Option String
  pub dates : Dates

abbrev pub default_string : String → String → String
default_string d s = if is_empty s then d else s

unfoldable pub mutate_pod_template_spec : PodTemplateSpec → PodTemplateSpec
mutate_pod_template_spec template = record template {
  spec = record (template.spec) {
    restart_policy = default_string "Never" template.spec.restart_policy;
  };
}

abbrev pub or_some : Option ℤ → Option ℤ → Option ℤ
or_some (some a) d = some a
or_some none d = d

unfoldable pub mutate_job_template_spec : JobTemplateSpec → JobTemplateSpec
unfolding mutate_pod_template_spec
mutate_job_template_spec spec = record spec {
  max_attempts = or_some spec.max_attempts (some (pos 1));
  task = record (spec.task) { template = mutate_pod_template_spec spec.task.template };
}

abbrev pub zero_template : JobTemplateSpec
zero_template = record {
  task = record {
    template = record {
      labels = [];
      annotations = [];
      finalizers = [];
      spec = record {
        init_containers = [];
        containers = [];
        restart_policy = "";
        node_name = "";
        active_deadline_seconds = none;
        rest = "";
      };
    };
    pending_timeout_seconds = none;
    forbid_force_deletion = false;
  };
  max_attempts = none;
  retry_delay_seconds = none;
}

abbrev pub template_or_zero : Option JobTemplateSpec → JobTemplateSpec
template_or_zero none = zero_template
template_or_zero (some template) = template

abbrev pub default_type : JobType → JobType
default_type (JobType.other s) = if is_empty s then JobType.adhoc else JobType.other s
default_type t = t

abbrev pub default_job : Job → JobExecutionConfig → Job
default_job rj cfg = record rj {
  spec = record (rj.spec) {
    job_type = default_type rj.spec.job_type;
    ttl_seconds_after_finished =
        or_some rj.spec.ttl_seconds_after_finished cfg.default_ttl_seconds_after_finished;
    template = some (mutate_job_template_spec (template_or_zero rj.spec.template));
  };
}

abbrev pub set_substitutions : Job → StringMap → Job
set_substitutions rj substitutions = record rj {
  spec = record (rj.spec) { substitutions = substitutions };
}

abbrev is_unset_policy : ConcurrencyPolicy → Bool
is_unset_policy (ConcurrencyPolicy.other s) = is_empty s
is_unset_policy _ = false

abbrev default_policy : Option StartPolicySpec → ConcurrencyPolicy → StartPolicySpec
default_policy none policy = record { concurrency_policy = policy; start_after = none }
default_policy (some spec) policy =
    if is_unset_policy spec.concurrency_policy
    then record spec { concurrency_policy = policy }
    else spec

-- labels.Merge: the second map's values win.
abbrev merge_labels : StringMap → StringMap → StringMap
merge_labels labels1 labels2 = insert_all labels2 labels1

-- The Job with what it takes of the base Job; ConfigName is cleared.
unfoldable pub merge_base_job : Job → Job → JobConfig → Job
unfolding insert insert_all merge_finalizers lookup
merge_base_job rj base_job rjc = record rj {
  metadata = record (rj.metadata) {
    labels =
        insert label_key_job_config_uid
          (label_value (lookup label_key_job_config_uid base_job.metadata.labels))
          (merge_labels base_job.metadata.labels rj.metadata.labels);
    annotations = merge_labels base_job.metadata.annotations rj.metadata.annotations;
    finalizers = merge_finalizers base_job.metadata.finalizers rj.metadata.finalizers;
    owner_references = base_job.metadata.owner_references;
  };
  spec = record (rj.spec) {
    template = base_job.spec.template;
    start_policy = some (default_policy rj.spec.start_policy rjc.spec.concurrency.policy);
    config_name = "";
  };
}

-- The comparison with a zero template sets a pointer against a struct, and never holds.
abbrev pub overwrite_warnings : Option JobTemplateSpec → List String
overwrite_warnings none = []
overwrite_warnings (some template) = "JobTemplate was overwritten with JobConfig's template" ∷ []

module _ (env : Env) where
  unfoldable pub mutate_job : Job → Job × Result
  unfolding mutate_job_template_spec
  mutate_job rj = elim env.jobs [
    | none ↦ (rj, with_error (error_at internal (child "" ∷ []) ∷ []))
    | some cfg ↦ (default_job rj cfg, new_result)
  ]

  abbrev pub apply_base_job : Job → JobConfig → FieldPath → Option Job → Job × Result
  apply_base_job rj rjc path none = (rj, with_error (error_at internal path ∷ []))
  apply_base_job rj rjc path (some base_job) =
      (merge_base_job rj base_job rjc, with_warnings (overwrite_warnings rj.spec.template))

  abbrev pub evaluate_looked_up : Job → FieldPath → Lookup → Job × Result
  evaluate_looked_up rj path missing = (rj, with_error (error_at not_found path ∷ []))
  evaluate_looked_up rj path failed = (rj, with_error (error_at internal path ∷ []))
  evaluate_looked_up rj path (found rjc) =
      apply_base_job rj rjc path
        (new_job_from_job_config env.now rjc rj.spec.job_type rj.metadata.creation_timestamp)

  unfoldable pub evaluate_config_name : Job → String → FieldPath → Job × Result
  unfolding merge_base_job new_job_from_job_config
  evaluate_config_name rj rjc_name path =
      if is_empty rjc_name
      then (rj, new_result)
      else evaluate_looked_up rj path (env.lister rj.metadata.namespace rjc_name)

  abbrev pub set_hash : Job → Option String → Job × Result
  set_hash rj none = (rj, with_warnings ("failed to store option spec hash in annotations" ∷ []))
  set_hash rj (some hash) = (
    record rj {
      metadata = record (rj.metadata) {
        annotations = insert annotation_key_option_spec_hash hash rj.metadata.annotations;
      };
    },
    new_result,
  )

  -- The values, read and written again as JSON; `none` is an error, which the Result has.
  abbrev pub standardize :
      Job → Option OptionSpec → FieldPath → (Job × Result) × Option (List (String × Value))
  standardize rj spec path =
      if is_empty rj.spec.option_values
      then ((rj, new_result), some [])
      else elim (env.unmarshal rj.spec.option_values) [
        | none ↦ ((rj, with_error (error_at invalid path ∷ [])), none)
        | some values ↦ elim (env.marshal values) [
          | none ↦ ((rj, with_error (error_at internal path ∷ [])), none)
          | some json ↦ (
            set_hash (record rj { spec = record (rj.spec) { option_values = json } })
                (env.hash_option_spec spec),
            some values,
          )
        ]
      ]

  abbrev pub merge_evaluated : Job → Result → StringMap × ErrorList → Job × Result
  merge_evaluated rj result (evaluated, []) =
      (set_substitutions rj (merge_substitutions (evaluated ∷ rj.spec.substitutions ∷ [])), result)
  merge_evaluated rj result (evaluated, e ∷ errs) = (rj, merge result (with_error (e ∷ errs)))

  abbrev pub evaluate_standardized :
      Option OptionSpec → FieldPath → (Job × Result) × Option (List (String × Value)) → Job × Result
  evaluate_standardized spec path ((rj, result), none) = (rj, result)
  evaluate_standardized spec path ((rj, result), some values) =
      merge_evaluated rj result (evaluate_options env.dates values spec path)

  unfoldable pub evaluate_option_values : Job → Option JobConfig → FieldPath → Job × Result
  unfolding insert merge evaluate_options merge_substitutions
  evaluate_option_values rj none path = (
    rj,
    with_warnings (
        if is_empty rj.spec.option_values
        then []
        else str_append "optionValues will be ignored without a JobConfig: " rj.spec.option_values
          ∷ []),
  )
  evaluate_option_values rj (some rjc) path =
      evaluate_standardized rjc.spec.option path (standardize rj rjc.spec.option path)

  abbrev pub add_context : Option JobConfig → Job → Job
  add_context none rj = rj
  add_context (some rjc) rj =
      set_substitutions rj
        (merge_substitutions (make_variables_from_job_config rjc ∷ rj.spec.substitutions ∷ []))

  abbrev pub evaluate_with_owner : Job → Result → Option JobConfig → Job × Result
  evaluate_with_owner rj result rjc =
      let (rj', evaluated) =
        evaluate_option_values rj rjc (child "optionValues" ∷ child "spec" ∷ []) in
      (add_context rjc rj', merge result evaluated)

  abbrev pub finish_with_owner : Job → Result → Owner → Job × Result
  finish_with_owner rj result (errors errs) = (rj, merge result (with_error errs))
  finish_with_owner rj result no_owner = evaluate_with_owner rj result none
  finish_with_owner rj result (owner rjc) = evaluate_with_owner rj result (some rjc)

  abbrev pub finish_create : Job × Result → Job × Result
  finish_create (rj, result) =
      finish_with_owner rj result (validate_lookup_job_owner rj (env.lister rj.metadata.namespace))

  abbrev pub add_finalizer : Job → Job
  add_finalizer rj = record rj {
    metadata = record (rj.metadata) {
      finalizers =
          if contains_finalizer rj.metadata.finalizers delete_dependents_finalizer
          then rj.metadata.finalizers
          else merge_finalizers rj.metadata.finalizers (delete_dependents_finalizer ∷ []);
    };
  }

  unfoldable pub mutate_create_job : Job → Job × Result
  unfolding contains_finalizer merge_finalizers merge evaluate_config_name validate_lookup_job_owner
      evaluate_option_values make_variables_from_job_config merge_substitutions
  mutate_create_job rj = finish_create (
      evaluate_config_name (add_finalizer rj) rj.spec.config_name
        (child "configName" ∷ child "spec" ∷ []))

  -- JobPatcher.Patch for the two operations.
  unfoldable pub patch_create : Job → Job × Result
  unfolding mutate_create_job mutate_job merge
  patch_create rj =
      let (rj', created) = mutate_create_job rj in
      let (rj'', defaulted) = mutate_job rj' in (rj'', merge created defaulted)

  unfoldable pub patch_update : Job → Job × Result
  unfolding mutate_job
  patch_update rj = mutate_job rj
