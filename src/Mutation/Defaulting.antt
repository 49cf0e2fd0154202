-- ===== src/Mutation/Defaulting.antt =====
-- Filling in the defaults of a Job.
use furiko.Prelude.{
  ℤ, pos, true, false, ◌≡◌, refl, subst, arith, Option, none, some, String, is_empty, is_some,
}
use furiko.Api.Config.{JobExecutionConfig}
use furiko.Api.Job.{Job, JobType, JobTemplateSpec}
use furiko.Equality.{job_type_string}
use furiko.Mutation.{
  default_string, default_type, default_job, or_some, template_or_zero, Env, mutate_job,
  mutate_job_template_spec, mutate_pod_template_spec,
}

-- A Job that was filled in is not changed by filling it in again.
pub mutate_job_idem :
    (env : Env) (rj : Job) → (mutate_job env (mutate_job env rj).0).0 ≡ (mutate_job env rj).0
unfolding mutate_job
mutate_job_idem env rj = ground arith

-- A Job whose fields that have a default are set.
pub record IsDefaulted (rj : Job) : Type 0 where
  pub template :
      (t : JobTemplateSpec) × (rj.spec.template ≡ some t)
      × (is_some t.max_attempts ≡ true)
      × (is_empty t.task.template.spec.restart_policy ≡ false)
  pub job_type : is_empty (job_type_string rj.spec.job_type) ≡ false

default_string-is_empty :
    (d s : String) → is_empty d ≡ false → is_empty (default_string d s) ≡ false
default_string-is_empty d s e = ground arith

default_type-is_empty : (t : JobType) → is_empty (job_type_string (default_type t)) ≡ false
default_type-is_empty JobType.adhoc = refl
default_type-is_empty JobType.scheduled = refl
default_type-is_empty (JobType.other String.[]) = refl
default_type-is_empty (JobType.other (String.◌∷◌ c s)) = refl

or_some-is_some : (o : Option ℤ) (n : ℤ) → is_some (or_some o (some n)) ≡ true
or_some-is_some none n = refl
or_some-is_some (some a) n = refl

default_job-IsDefaulted : (rj : Job) (cfg : JobExecutionConfig) → IsDefaulted (default_job rj cfg)
unfolding mutate_job_template_spec mutate_pod_template_spec
default_job-IsDefaulted rj cfg =
    let template = template_or_zero rj.spec.template in
    record {
      template = (
        mutate_job_template_spec template,
        refl,
        or_some-is_some template.max_attempts (pos 1),
        default_string-is_empty "Never" template.task.template.spec.restart_policy refl,
      );
      job_type = default_type-is_empty rj.spec.job_type;
    }

-- Where the configuration is loaded, a Job has a type, a template with a number of attempts, and a
-- pod with a restart policy, after it was filled in.
pub mutate_job-IsDefaulted :
    (env : Env) (rj : Job) (cfg : JobExecutionConfig)
    → env.jobs ≡ some cfg
    → IsDefaulted (mutate_job env rj).0
unfolding mutate_job
mutate_job-IsDefaulted env rj cfg loaded =
    let same : default_job rj cfg ≡ (mutate_job env rj).0 = ground arith in
    subst IsDefaulted same (default_job-IsDefaulted rj cfg)
