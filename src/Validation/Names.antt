-- ===== src/Validation/Names.antt =====
-- The limits on names leave room for what the controllers append.
use Prim.Native.String.{len}
use furiko.Prelude.{ℕ, ◌+◌, ◌≤◌, ◌<◌, pos, ◌≡◌, ◌∙◌, ap, [], ◌∷◌, String, str_append, arith, false}
use text.Mathlib.TextPositions.{len-append}
use furiko.Ktime.{Time, is_zero, unix}
use furiko.Decimal.{itoa, len-itoa}
use furiko.Api.JobConfig.{JobConfig}
use furiko.FieldError.{append-nil, child}
use furiko.JobConfigUtil.{generate_name}
use furiko.PodTask.Create.{get_pod_indexed_name}
use furiko.Validation.{Env, max_job_config_name_len, max_job_name_len, validate_max_length}
use furiko.Validation.Schedule.{validate_job_config, validate_job_config_spec}

suffix_length :
    (name suffix : String)
    → len (str_append name (str_append "." suffix)) ≡ len name + (1 + len suffix)
suffix_length name suffix =
    len-append name (str_append "." suffix) ∙ ap (λ n. len name + n) (len-append "." suffix)

-- The name of a Job that is made from a JobConfig that passed the checks is at most as long as a
-- Job's name may be, for a creation time from 1970 to 2286.
pub generate_name-length :
    (env : Env) (rjc : JobConfig) (now t : Time) (s : ℕ)
    → validate_job_config env rjc ≡ []
    → is_zero t ≡ false
    → unix t ≡ pos s
    → s < 10_000_000_000
    → len (generate_name now rjc.metadata.name t) ≤ max_job_name_len
unfolding validate_job_config validate_max_length generate_name
generate_name-length env rjc now t s e set at h =
    let (short, rest) =
      append-nil
        (validate_max_length rjc.metadata.name max_job_config_name_len
          (child "name" ∷ child "metadata" ∷ []))
        (validate_job_config_spec env rjc.spec (child "spec" ∷ [])) e in
    ground (arith, suffix_length rjc.metadata.name (itoa (unix t)), len-itoa 9 s (omega arith))

-- The name of a pod is at most 63 bytes long, the limit of a label, for a Job whose name passed the
-- checks and an index below 100.
pub get_pod_indexed_name-length :
    (name : String) (i : ℕ)
    → len name ≤ max_job_name_len
    → i < 100
    → len (get_pod_indexed_name name (pos i)) ≤ 63
unfolding get_pod_indexed_name
get_pod_indexed_name-length name i short h =
    ground (arith, suffix_length name (itoa (pos i)), len-itoa 1 i (omega arith))
