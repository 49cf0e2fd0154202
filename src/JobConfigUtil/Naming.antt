-- ===== src/JobConfigUtil/Naming.antt =====
-- The times that the name and the annotation of a scheduled Job carry.
use furiko.Prelude.{◌≡◌, false, some, String, str_append, arith, eq_refl, IsInt64}
use text.Mathlib.TextLemmas.{append_cancel_left}
use furiko.Ktime.{Time, is_zero, unix, of_unix}
use furiko.Decimal.{itoa, atoi, atoi-itoa, itoa-injective}
use furiko.Meta.{lookup-insert}
use furiko.Api.Meta.{annotation_key_schedule_time}
use furiko.Api.Job.{Job, JobType}
use furiko.Api.JobConfig.{JobConfig}
use furiko.JobConfigController.{get_label_schedule_time}
use furiko.JobConfigUtil.{generate_name, new_job_from_job_config, make_annotations}

-- The schedule time of a scheduled Job, an int64 of seconds, is read back from the Job's
-- annotation, in whole seconds.
pub get_label_schedule_time-new_job :
    (now create_time : Time) (rjc : JobConfig) (rj : Job)
    → IsInt64 (unix create_time)
    → new_job_from_job_config now rjc JobType.scheduled create_time ≡ some rj
    → get_label_schedule_time atoi rj ≡ some (of_unix (unix create_time))
unfolding get_label_schedule_time new_job_from_job_config make_annotations
get_label_schedule_time-new_job now create_time rjc rj fits e = ground (
  arith,
  lookup-insert annotation_key_schedule_time annotation_key_schedule_time (itoa (unix create_time))
      rjc.spec.template.annotations,
  eq_refl annotation_key_schedule_time,
  atoi-itoa (unix create_time) fits,
)

-- Jobs of one JobConfig with the same name were made for the same second, unless a time is zero.
pub generate_name-injective :
    (now : Time) (name : String) (t u : Time)
    → is_zero t ≡ false
    → is_zero u ≡ false
    → IsInt64 (unix t)
    → IsInt64 (unix u)
    → generate_name now name t ≡ generate_name now name u
    → unix t ≡ unix u
unfolding generate_name
generate_name-injective now name t u set set' fits fits' e =
    let same : str_append name (str_append "." (itoa (unix t)))
        ≡ str_append name (str_append "." (itoa (unix u))) =
      ground arith in
    itoa-injective (unix t) (unix u) fits fits' (
      append_cancel_left "." (itoa (unix t)) (itoa (unix u)) (
        append_cancel_left name (str_append "." (itoa (unix t))) (str_append "." (itoa (unix u)))
          same))
