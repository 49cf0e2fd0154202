-- ===== src/Webhook.antt =====
-- pkg/execution/webhooks and pkg/utils/cmp/cmp.go: the handlers of the admission webhooks, over the
-- JSON of the objects. Reading and writing JSON, and the patch library, are a parameter.
pub mod Admitted
use furiko.Prelude.{
  Bool, true, false, ◌&&◌, List, [], ◌∷◌, ◌++◌, Option, none, some, String, str_eq, if◌then◌else◌,
}
use furiko.Ktime.{Time}
use furiko.Api.Job.{Job}
use furiko.Api.JobConfig.{JobConfig}
use furiko.FieldError.{ErrorList}
use furiko.Mutation.{Env, Result, patch_create, patch_update, new_result}
use furiko.Mutation.JobConfigs as JobConfigs
use furiko.Validation as Validation
use furiko.Validation.{validate_job, validate_job_create}
use furiko.Validation.Schedule.{validate_job_config}
use furiko.Validation.Update.{validate_job_update}

pub record GroupVersionKind : Type 0 where
  pub group : String
  pub version : String
  pub kind : String

abbrev pub gvk_job : GroupVersionKind
gvk_job = record { group = "execution.furiko.io"; version = "v1alpha1"; kind = "Job" }

abbrev pub gvk_job_config : GroupVersionKind
gvk_job_config = record { group = "execution.furiko.io"; version = "v1alpha1"; kind = "JobConfig" }

abbrev equal_kind : GroupVersionKind → GroupVersionKind → Bool
equal_kind a b = str_eq a.group b.group && str_eq a.version b.version && str_eq a.kind b.kind

pub data Operation : Type 0 where
  create update : Operation
  other : String → Operation

pub record AdmissionRequest : Type 0 where
  pub kind : GroupVersionKind
  pub operation : Operation
  pub object : String
  pub old_object : String

-- `result` has the errors of the status of an object that is invalid.
pub record AdmissionResponse : Type 0 where
  pub allowed : Bool
  pub result : ErrorList
  pub warnings : List String
  pub patch : Option String

pub data HandleError : Type 0 where
  unhandled_kind cannot_decode cannot_compare cannot_patch : HandleError

-- `panicked` is a nil dereference.
pub data Outcome : Type 0 where
  answered : AdmissionResponse → Outcome
  failed : HandleError → Outcome
  panicked : Outcome

abbrev pub allow : List String → Option String → AdmissionResponse
allow warnings patch = record { allowed = true; result = []; warnings = warnings; patch = patch }

abbrev pub reject : ErrorList → AdmissionResponse
reject errs = record { allowed = false; result = errs; warnings = []; patch = none }

-- An operation that is handled, with the objects that were read.
pub data Change {ℓ} (A : Type ℓ) : Type ℓ where
  created : A → Change A
  updated : A → A → Change A

abbrev pub changed {ℓ} : {A : Type ℓ} → Change A → A
changed (created rj) = rj
changed (updated old_rj rj) = rj

pub record Json {ℓ} (A : Type ℓ) : Type ℓ where
  pub unmarshal : String → Option A
  pub marshal : A → Option String
  pub create_patch : String → String → Option String

module _ {ℓ} {A : Type ℓ} (json : Json A) where
  unfoldable pub marshal_two : A → A → Option (String × String)
  marshal_two first second = elim (json.marshal first) [
    | none ↦ none
    | some first_bytes ↦ elim (json.marshal second) [
      | none ↦ none
      | some second_bytes ↦ some (first_bytes, second_bytes)
    ]
  ]

  unfoldable pub is_json_equal : A → A → Option Bool
  unfolding marshal_two
  is_json_equal first second = elim (marshal_two first second) [
    | none ↦ none
    | some (first_bytes, second_bytes) ↦ some (str_eq first_bytes second_bytes)
  ]

  unfoldable pub create_json_patch : A → A → Option String
  unfolding marshal_two
  create_json_patch before after = elim (marshal_two before after) [
    | none ↦ none
    | some (raw_before, raw_after) ↦ json.create_patch raw_before raw_after
  ]

  abbrev with_object : (A → Change A) → (Change A → Outcome) → Option A → Outcome
  with_object make answer none = failed cannot_decode
  with_object make answer (some rj) = answer (make rj)

  abbrev with_objects : String → (Change A → Outcome) → Option A → Outcome
  with_objects object answer none = failed cannot_decode
  with_objects object answer (some old_rj) =
      with_object (updated old_rj) answer (json.unmarshal object)

  -- What the four handlers do alike: the kind and the operation are looked at, and the objects read.
  unfoldable pub decode_request :
      GroupVersionKind → (Change A → Outcome) → AdmissionRequest → Outcome
  decode_request gvk answer req =
      if equal_kind req.kind gvk
      then elim req.operation [
        | update ↦ with_objects req.object answer (json.unmarshal req.old_object)
        | create ↦ with_object created answer (json.unmarshal req.object)
        | other operation ↦ answered (allow [] none)
      ]
      else failed unhandled_kind

  abbrev answer_patched : A → A → List String → Option Bool → Outcome
  answer_patched rj new_rj warnings none = failed cannot_compare
  answer_patched rj new_rj warnings (some true) = answered (allow warnings none)
  answer_patched rj new_rj warnings (some false) = elim (create_json_patch rj new_rj) [
    | none ↦ failed cannot_patch
    | some patch ↦ answered (allow warnings (some patch))
  ]

  unfoldable pub answer_mutation : A → A × Result → Outcome
  unfolding is_json_equal create_json_patch
  answer_mutation rj (new_rj, result) = elim result.errors [
    | [] ↦ answer_patched rj new_rj result.warnings (is_json_equal rj new_rj)
    | e ∷ errs ↦ answered (reject (e ∷ errs))
  ]

unfoldable pub answer_validation : Option ErrorList → Outcome
answer_validation none = panicked
answer_validation (some []) = answered (allow [] none)
answer_validation (some (e ∷ errs)) = answered (reject (e ∷ errs))

unfoldable pub patch_job : Env → Change Job → Job × Result
unfolding patch_create patch_update
patch_job env (created rj) = patch_create env rj
patch_job env (updated old_rj rj) = patch_update env rj

unfoldable pub patch_job_config : Time → Change JobConfig → JobConfig × Result
unfolding JobConfigs.patch_create JobConfigs.patch_update
patch_job_config now (created rjc) = (JobConfigs.patch_create now rjc, new_result)
patch_job_config now (updated old_rjc rjc) = (JobConfigs.patch_update now old_rjc rjc, new_result)

abbrev append_errors : ErrorList → Option ErrorList → Option ErrorList
append_errors errs none = none
append_errors errs (some more) = some (errs ++ more)

unfoldable pub validate_job_change : Validation.Env → Change Job → Option ErrorList
unfolding validate_job validate_job_create validate_job_update
validate_job_change env (created rj) = some (validate_job env rj ++ validate_job_create env rj)
validate_job_change env (updated old_rj rj) =
    append_errors (validate_job env rj) (validate_job_update env.now old_rj rj)

unfoldable pub handle_job_mutation : Json Job → Env → AdmissionRequest → Outcome
unfolding decode_request answer_mutation patch_job
handle_job_mutation json env req =
    decode_request json gvk_job (λ c. answer_mutation json (changed c) (patch_job env c)) req

unfoldable pub handle_job_config_mutation : Json JobConfig → Time → AdmissionRequest → Outcome
unfolding decode_request answer_mutation patch_job_config
handle_job_config_mutation json now req =
    decode_request json gvk_job_config
      (λ c. answer_mutation json (changed c) (patch_job_config now c)) req

unfoldable pub handle_job_validation : Json Job → Validation.Env → AdmissionRequest → Outcome
unfolding decode_request answer_validation validate_job_change
handle_job_validation json env req =
    decode_request json gvk_job (λ c. answer_validation (validate_job_change env c)) req

-- Creating and updating a JobConfig have no checks of their own.
unfoldable pub handle_job_config_validation :
    Json JobConfig → Validation.Env → AdmissionRequest → Outcome
unfolding decode_request answer_validation validate_job_config
handle_job_config_validation json env req =
    decode_request json gvk_job_config
      (λ c. answer_validation (some (validate_job_config env (changed c)))) req
