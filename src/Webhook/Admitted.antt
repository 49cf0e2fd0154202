-- ===== src/Webhook/Admitted.antt =====
-- What an object is that the admission webhooks let through.
use furiko.Prelude.{true, [], ◌∷◌, Option, none, some, String, ◌≡◌, refl, arith, ap}
use furiko.Api.Job.{Job}
use furiko.FieldError.{ErrorList, append-nil}
use furiko.Mutation.{Env, Result}
use furiko.Validation as Validation
use furiko.Validation.{validate_job}
use furiko.Validation.Accepted.{IsValidJob, validate_job-IsValidJob}
use furiko.Validation.Immutable.{SameJob, validate_job_update-SameJob}
use furiko.Validation.Update.{validate_job_update}
use furiko.Webhook.{
  AdmissionRequest, AdmissionResponse, GroupVersionKind, gvk_job, create, update, Outcome, answered,
  Json, Change, created, updated, decode_request, answer_validation, validate_job_change,
  handle_job_validation, append_errors,
}

-- What the patch of a response makes of a text: a response without one leaves it as it is.
abbrev pub patched : (String → String → Option String) → AdmissionResponse → String → Option String
patched apply resp raw = elim resp.patch [ none ↦ some raw | some patch ↦ apply patch raw ]

-- Applying the patch that the library makes of two texts gives the second.
abbrev pub IsPatchOf {ℓ} :
    {A : Type ℓ} → (json : Json A) → (String → String → Option String) → Type 0
IsPatchOf json apply =
    (before after patch : String)
    → json.create_patch before after ≡ some patch
    → apply patch before ≡ some after

-- The request asks for the change.
abbrev pub Reads {ℓ} : {A : Type ℓ} → Json A → AdmissionRequest → Change A → Type ℓ
Reads json req (created rj) = (req.operation ≡ create) × (json.unmarshal req.object ≡ some rj)
Reads json req (updated old_rj rj) =
    (req.operation ≡ update)
    × (json.unmarshal req.old_object ≡ some old_rj)
    × (json.unmarshal req.object ≡ some rj)

-- The response's patch leads from the JSON of the object, as the program writes it, to the JSON of the
-- mutated one.
pub record IsPatched {ℓ} {A : Type ℓ} (json : Json A) (apply : String → String → Option String)
    (resp : AdmissionResponse) (rj : A) (out : A × Result) : Type ℓ where
  pub before : String
  pub after : String
  pub marshalled : json.marshal rj ≡ some before
  pub mutated : json.marshal out.0 ≡ some after
  pub applied : patched apply resp before ≡ some after
  pub no_errors : out.1.errors ≡ []
  pub warnings : resp.warnings ≡ out.1.warnings

-- A request that is answered was answered for the change that it asks for.
decode_request-answered {ℓ} :
    {A : Type ℓ}
    → (json : Json A) (gvk : GroupVersionKind) (answer : Change A → Outcome)
      (req : AdmissionRequest) (c : Change A) (resp : AdmissionResponse)
    → Reads json req c
    → decode_request json gvk answer req ≡ answered resp
    → answer c ≡ answered resp
unfolding decode_request
decode_request-answered json gvk answer req (created rj) resp (op, read) e = ground arith
decode_request-answered json gvk answer req (updated old_rj rj) resp (op, read_old, read) e =
    ground arith

append_errors-nil :
    (errs : ErrorList) (more : Option ErrorList)
    → append_errors errs more ≡ some []
    → (errs ≡ []) × (more ≡ some [])
append_errors-nil errs none e = absurd (cc)
append_errors-nil errs (some more) e =
    let (l, r) = append-nil errs more (ground arith) in (l, ap some r)

answer_validation-allowed :
    (errs : Option ErrorList) (resp : AdmissionResponse)
    → answer_validation errs ≡ answered resp
    → resp.allowed ≡ true
    → errs ≡ some []
unfolding answer_validation
answer_validation-allowed none resp e allowed = absurd (cc)
answer_validation-allowed (some []) resp e allowed = refl
answer_validation-allowed (some (x ∷ xs)) resp e allowed = absurd (ground arith)

-- An update of a Job that the validating webhook lets through keeps what no update may change, and
-- gives a Job that is valid, for a request whose Jobs can be read.
pub handle_job_validation-SameJob :
    (json : Json Job) (env : Validation.Env) (req : AdmissionRequest) (old_rj rj : Job)
    (resp : AdmissionResponse)
    → Reads json req (updated old_rj rj)
    → handle_job_validation json env req ≡ answered resp
    → resp.allowed ≡ true
    → SameJob old_rj rj × IsValidJob rj
unfolding handle_job_validation validate_job_change
handle_job_validation-SameJob json env req old_rj rj resp read e allowed =
    let (valid, same) =
      append_errors-nil (validate_job env rj) (validate_job_update env.now old_rj rj) (
        answer_validation-allowed _ resp
          (decode_request-answered json gvk_job (λ c. answer_validation (validate_job_change env c))
            req (updated old_rj rj) resp read e)
          allowed) in
    (validate_job_update-SameJob env.now old_rj rj same, validate_job-IsValidJob env rj valid)
