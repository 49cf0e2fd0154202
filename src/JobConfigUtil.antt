-- ===== src/JobConfigUtil.antt =====
-- pkg/execution/util/jobconfig: job.go, name.go, labels.go and the lookup of a Job's owner.
pub mod Ownership
pub mod Naming
use furiko.Prelude.{
  ℕ, suc, ℤ, pos, Bool, true, false, not, ◌&&◌, List, [], ◌∷◌, Option, none, some, String,
  str_append, str_eq, if◌then◌else◌,
}
use furiko.Ktime.{Time, zero_time, is_zero, unix}
use furiko.Decimal.{itoa}
use furiko.Meta.{StringMap, lookup, insert}
use furiko.Api.Meta.{
  ObjectMeta, OwnerReference, annotation_key_schedule_time, label_key_job_config_uid,
  delete_dependents_finalizer,
}
use furiko.Api.Job.{Job, JobType, JobPhase}
use furiko.Api.JobConfig.{JobConfig}
use furiko.FieldError.{
  FieldPath, child, index, key, ErrorList, error_at, not_found, internal, duplicate, required,
}
use furiko.Options.Defaults.{make_default_options}

-- `now` is what time.Now() answers.
unfoldable pub generate_name : Time → String → Time → String
unfolding unix itoa
generate_name now job_config_name start_time =
    let start = if is_zero start_time then now else start_time in
    str_append job_config_name (str_append "." (itoa (unix start)))

unfoldable pub make_labels : JobConfig → StringMap
unfolding insert
make_labels rjc = insert label_key_job_config_uid rjc.metadata.uid rjc.spec.template.labels

abbrev is_scheduled_type : JobType → Bool
is_scheduled_type JobType.scheduled = true
is_scheduled_type _ = false

unfoldable pub make_annotations : JobConfig → JobType → Time → StringMap
unfolding insert unix itoa
make_annotations rjc job_type create_time =
    if is_scheduled_type job_type
    then insert annotation_key_schedule_time (itoa (unix create_time)) rjc.spec.template.annotations
    else rjc.spec.template.annotations

-- `none` is the error of the default options.
unfoldable pub make_substitutions : JobConfig → Option StringMap
unfolding make_default_options
make_substitutions rjc = make_default_options rjc.spec.option

-- metav1.NewControllerRef.
abbrev controller_ref : JobConfig → OwnerReference
controller_ref rjc = record {
  kind = "JobConfig";
  name = rjc.metadata.name;
  uid = rjc.metadata.uid;
  controller = some true;
}

abbrev pub job_with_variables : Time → JobConfig → JobType → Time → StringMap → Job
job_with_variables now rjc job_type create_time variables = record {
  metadata = record {
    name = generate_name now rjc.metadata.name create_time;
    namespace = rjc.metadata.namespace;
    uid = "";
    labels = make_labels rjc;
    annotations = make_annotations rjc job_type create_time;
    finalizers = delete_dependents_finalizer ∷ [];
    owner_references = controller_ref rjc ∷ [];
    creation_timestamp = zero_time;
    deletion_timestamp = none;
  };
  spec = record {
    config_name = "";
    job_type = job_type;
    start_policy = none;
    template = some rjc.spec.template.spec;
    option_values = "";
    substitutions = variables;
    kill_timestamp = none;
    ttl_seconds_after_finished = none;
  };
  status = record {
    phase = JobPhase.other "";
    condition = record { queueing = none; waiting = none; running = none; finished = none };
    start_time = none;
    created_tasks = pos 0;
    tasks = [];
  };
}

-- What the API server fills in is zero.
unfoldable pub new_job_from_job_config : Time → JobConfig → JobType → Time → Option Job
unfolding generate_name make_labels make_annotations make_substitutions
new_job_from_job_config now rjc job_type create_time = elim (make_substitutions rjc) [
  | none ↦ none
  | some variables ↦ some (job_with_variables now rjc job_type create_time variables)
]

-- What the lister of JobConfigs answers for a name.
pub data Lookup : Type 0 where
  found : JobConfig → Lookup
  missing failed : Lookup

pub data Owner : Type 0 where
  no_owner : Owner
  owner : JobConfig → Owner
  errors : ErrorList → Owner

abbrev is_controller : OwnerReference → Bool
is_controller ref = elim ref.controller [ none ↦ false | some b ↦ b ]

-- metav1.GetControllerOf: the first reference that is a controller, with its index.
abbrev pub controller_from : ℕ → List OwnerReference → Option (ℕ × OwnerReference)
controller_from i [] = none
controller_from i (ref ∷ refs) =
    let rest = controller_from (suc i) refs in if is_controller ref then some (i, ref) else rest

abbrev pub label_value : Option String → String
label_value none = ""
label_value (some v) = v

abbrev pub metadata_path : FieldPath
metadata_path = child "metadata" ∷ []

abbrev pub check_owner : Job → OwnerReference → FieldPath → JobConfig → Owner
check_owner rj ref path rjc =
    if not (str_eq rjc.metadata.uid ref.uid)
    then errors (error_at duplicate (key "uid" ∷ path) ∷ [])
    else if not
        (str_eq (label_value (lookup label_key_job_config_uid rj.metadata.labels)) rjc.metadata.uid)
    then errors
        (error_at required (key label_key_job_config_uid ∷ child "labels" ∷ metadata_path) ∷ [])
    else owner rjc

abbrev pub look_up_owner : (String → Lookup) → Job → FieldPath → OwnerReference → Owner
look_up_owner lister rj path ref = elim (lister ref.name) [
  | found rjc ↦ check_owner rj ref path rjc
  | missing ↦ errors (error_at not_found path ∷ [])
  | failed ↦ errors (error_at internal path ∷ [])
]

unfoldable pub validate_lookup_job_owner : Job → (String → Lookup) → Owner
unfolding lookup
validate_lookup_job_owner rj lister = elim (controller_from 0 rj.metadata.owner_references) [
  | none ↦ no_owner
  | some found_ref ↦
      let (i, ref) = found_ref in
      if not (str_eq ref.kind "JobConfig")
      then no_owner
      else look_up_owner lister rj (index i ∷ child "ownerReferences" ∷ metadata_path) ref
]

-- LookupJobOwner, with `none` for an error.
unfoldable pub lookup_job_owner : Job → (String → Lookup) → Option (Option JobConfig)
unfolding validate_lookup_job_owner
lookup_job_owner rj lister = elim (validate_lookup_job_owner rj lister) [
  | no_owner ↦ some none
  | owner rjc ↦ some (some rjc)
  | errors e ↦ none
]
