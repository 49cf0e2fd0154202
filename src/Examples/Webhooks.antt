-- ===== src/Examples/Webhooks.antt =====
-- The handlers of the admission webhooks on one Job, which stands for any text.
use furiko.Prelude.{◌≡◌, refl, [], ◌∷◌, some, none, String, List, Option}
use furiko.Api.Meta.{delete_dependents_finalizer}
use furiko.Api.Job.{Job}
use furiko.Validation.Accepted.{IsValidJob}
use furiko.Validation.Immutable.{SameJob}
use furiko.Webhook.{
  AdmissionRequest, AdmissionResponse, Operation, create, update, Json, allow, failed,
  unhandled_kind, gvk_job, gvk_job_config, handle_job_mutation, handle_job_validation,
}
use furiko.Webhook.Admitted.{handle_job_validation-SameJob}
use furiko.Samples.{created_job}
use furiko.Examples.Admission.{mutation_env, validation_env}

abbrev first_of : List String → String
first_of [] = ""
first_of (x ∷ xs) = x

abbrev plain_job : Job
plain_job = record created_job { metadata = record (created_job.metadata) { finalizers = [] } }

-- A stand-in for the JSON of a Job: its first finalizer. A patch is the text that it leads to.
abbrev json : Json Job
json = record {
  unmarshal = λ s. some plain_job;
  marshal = λ rj. some (first_of rj.metadata.finalizers);
  create_patch = λ before after. some after;
}

abbrev apply : String → String → Option String
apply patch before = some patch

abbrev request : Operation → AdmissionRequest
request operation = record { kind = gvk_job; operation = operation; object = ""; old_object = "" }

abbrev response : AdmissionResponse
response =
    allow ("JobTemplate was overwritten with JobConfig's template" ∷ [])
      (some delete_dependents_finalizer)

other_kind_fails :
    handle_job_mutation json mutation_env (record (request create) { kind = gvk_job_config })
    ≡ failed unhandled_kind
unfolding handle_job_mutation
other_kind_fails = refl

handle_job_validation-SameJob_example : SameJob plain_job plain_job × IsValidJob plain_job
unfolding handle_job_validation
handle_job_validation-SameJob_example =
    handle_job_validation-SameJob json validation_env (request update) plain_job plain_job
      (allow [] none) (refl, refl, refl) refl refl
