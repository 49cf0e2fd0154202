-- ===== src/Equality.antt =====
-- apiequality.Semantic.DeepEqual at the types at which the program calls it. Two maps are equal where
-- each has the other's entries, in any order.
use furiko.Prelude.{
  Bool, true, false, not, ◌&&◌, List, [], ◌∷◌, Option, none, some, String, str_eq, eq_iff, eqb_ℤ,
  eqb_ℤ→eq, ◌≡◌, refl, arith, is_some, Bool-cases, inl, inr, ap,
}
use furiko.Meta.{StringMap, lookup}
use furiko.Api.Pod.{EnvVar, Container, PodSpec, PodTemplateSpec}
use furiko.Api.Job.{JobType, ConcurrencyPolicy, StartPolicySpec, JobTaskSpec}
use furiko.Api.JobConfig.{CronSchedule, ScheduleConstraints, ScheduleSpec}

abbrev pub equal_bool : Bool → Bool → Bool
equal_bool true b = b
equal_bool false b = not b

abbrev pub equal_option {ℓ} : {A : Type ℓ} → (A → A → Bool) → Option A → Option A → Bool
equal_option equal none none = true
equal_option equal none (some b) = false
equal_option equal (some a) none = false
equal_option equal (some a) (some b) = equal a b

abbrev pub equal_list {ℓ} : {A : Type ℓ} → (A → A → Bool) → List A → List A → Bool
equal_list equal [] [] = true
equal_list equal [] (b ∷ ys) = false
equal_list equal (a ∷ xs) [] = false
equal_list equal (a ∷ xs) (b ∷ ys) = equal a b && equal_list equal xs ys

-- Does a test that answers true only on equals do so on options, and on lists?
abbrev pub IsSound {ℓ} : {A : Type ℓ} → (A → A → Bool) → Type ℓ
IsSound {A = A} equal = (a b : A) → equal a b ≡ true → a ≡ b

pub equal_option-IsSound {ℓ} :
    {A : Type ℓ} (equal : A → A → Bool) → IsSound equal → IsSound (equal_option equal)
equal_option-IsSound equal sound none none e = refl
equal_option-IsSound equal sound none (some b) e = absurd (cc)
equal_option-IsSound equal sound (some a) none e = absurd (cc)
equal_option-IsSound equal sound (some a) (some b) e = cc (sound a b e)

pub equal_list-IsSound {ℓ} :
    {A : Type ℓ} (equal : A → A → Bool) → IsSound equal → IsSound (equal_list equal)
equal_list-IsSound equal sound [] [] e = refl
equal_list-IsSound equal sound [] (b ∷ ys) e = absurd (cc)
equal_list-IsSound equal sound (a ∷ xs) [] e = absurd (cc)
equal_list-IsSound equal sound (a ∷ xs) (b ∷ ys) e =
    grind (arith, sound a b, equal_list-IsSound equal sound xs ys)

pub str_eq-IsSound : IsSound str_eq
str_eq-IsSound a b e = ground (arith, eq_iff a b)

pub eqb_ℤ-IsSound : IsSound eqb_ℤ
eqb_ℤ-IsSound a b e = eqb_ℤ→eq a b e

-- Do two maps have the same value for each key of some entries?
unfoldable agree_on : StringMap → StringMap → StringMap → Bool
unfolding lookup
agree_on [] m m' = true
agree_on ((k, v) ∷ entries) m m' =
    equal_option str_eq (lookup k m) (lookup k m') && agree_on entries m m'

unfoldable pub equal_map : StringMap → StringMap → Bool
unfolding agree_on
equal_map m m' = agree_on m m m' && agree_on m' m m'

abbrev pub equal_env_var : EnvVar → EnvVar → Bool
equal_env_var a b =
    str_eq a.name b.name && str_eq a.value b.value && equal_option str_eq a.value_from b.value_from

abbrev pub equal_container : Container → Container → Bool
equal_container a b =
    str_eq a.image b.image
    && equal_list equal_env_var a.env b.env
    && equal_list str_eq a.command b.command
    && equal_list str_eq a.args b.args
    && str_eq a.rest b.rest

abbrev pub equal_pod_spec : PodSpec → PodSpec → Bool
equal_pod_spec a b =
    equal_list equal_container a.init_containers b.init_containers
    && equal_list equal_container a.containers b.containers
    && str_eq a.restart_policy b.restart_policy
    && str_eq a.node_name b.node_name
    && equal_option eqb_ℤ a.active_deadline_seconds b.active_deadline_seconds
    && str_eq a.rest b.rest

abbrev pub equal_pod_template_spec : PodTemplateSpec → PodTemplateSpec → Bool
equal_pod_template_spec a b =
    equal_map a.labels b.labels
    && equal_map a.annotations b.annotations
    && equal_list str_eq a.finalizers b.finalizers
    && equal_pod_spec a.spec b.spec

abbrev pub equal_job_task_spec : JobTaskSpec → JobTaskSpec → Bool
equal_job_task_spec a b =
    equal_pod_template_spec a.template b.template
    && equal_option eqb_ℤ a.pending_timeout_seconds b.pending_timeout_seconds
    && equal_bool a.forbid_force_deletion b.forbid_force_deletion

abbrev pub job_type_string : JobType → String
job_type_string JobType.adhoc = "Adhoc"
job_type_string JobType.scheduled = "Scheduled"
job_type_string (JobType.other s) = s

abbrev pub policy_string : ConcurrencyPolicy → String
policy_string ConcurrencyPolicy.allow = "Allow"
policy_string ConcurrencyPolicy.forbid = "Forbid"
policy_string ConcurrencyPolicy.enqueue = "Enqueue"
policy_string (ConcurrencyPolicy.other s) = s

abbrev pub equal_start_policy : StartPolicySpec → StartPolicySpec → Bool
equal_start_policy a b =
    str_eq (policy_string a.concurrency_policy) (policy_string b.concurrency_policy)
    && equal_option eqb_ℤ a.start_after b.start_after

abbrev pub equal_cron_schedule : CronSchedule → CronSchedule → Bool
equal_cron_schedule a b = str_eq a.expression b.expression && str_eq a.timezone b.timezone

abbrev pub equal_constraints : ScheduleConstraints → ScheduleConstraints → Bool
equal_constraints a b =
    equal_option eqb_ℤ a.not_before b.not_before && equal_option eqb_ℤ a.not_after b.not_after

abbrev pub equal_schedule_spec : ScheduleSpec → ScheduleSpec → Bool
equal_schedule_spec a b =
    equal_option equal_cron_schedule a.cron b.cron
    && equal_bool a.disabled b.disabled
    && equal_option equal_constraints a.constraints b.constraints
    && equal_option eqb_ℤ a.last_updated b.last_updated

pub equal_env_var-IsSound : IsSound equal_env_var
equal_env_var-IsSound a b e = grind (
  arith,
  eq_iff a.name b.name,
  eq_iff a.value b.value,
  equal_option-IsSound str_eq str_eq-IsSound a.value_from b.value_from,
)

pub equal_container-IsSound : IsSound equal_container
equal_container-IsSound a b e = grind (
  arith,
  eq_iff a.image b.image,
  equal_list-IsSound equal_env_var equal_env_var-IsSound a.env b.env,
  equal_list-IsSound str_eq str_eq-IsSound a.command b.command,
  equal_list-IsSound str_eq str_eq-IsSound a.args b.args,
  eq_iff a.rest b.rest,
)

pub equal_pod_spec-IsSound : IsSound equal_pod_spec
equal_pod_spec-IsSound a b e = grind (
  arith,
  equal_list-IsSound equal_container equal_container-IsSound a.init_containers b.init_containers,
  equal_list-IsSound equal_container equal_container-IsSound a.containers b.containers,
  eq_iff a.restart_policy b.restart_policy,
  eq_iff a.node_name b.node_name,
  equal_option-IsSound eqb_ℤ eqb_ℤ-IsSound a.active_deadline_seconds b.active_deadline_seconds,
  eq_iff a.rest b.rest,
)

agree_on-lookup :
    (key : String) (entries m m' : StringMap)
    → agree_on entries m m' ≡ true
    → is_some (lookup key entries) ≡ true
    → lookup key m ≡ lookup key m'
unfolding agree_on lookup
agree_on-lookup key [] m m' e h = absurd (ground arith)
agree_on-lookup key ((k, w) ∷ entries) m m' e h = elim (Bool-cases (str_eq k key)) [
  | inl same ↦
      let at : k ≡ key = ground (arith, eq_iff k key) in
      cc (
        equal_option-IsSound str_eq str_eq-IsSound (lookup k m) (lookup k m') (ground arith),
        ap (λ i. lookup i m) at,
        ap (λ i. lookup i m') at,
      )
  | inr differs ↦ agree_on-lookup key entries m m' (ground arith) (ground arith)
]

-- Equal maps answer the same value for every key.
pub equal_map-lookup :
    (m m' : StringMap) → equal_map m m' ≡ true → (key : String) → lookup key m ≡ lookup key m'
unfolding equal_map
equal_map-lookup m m' e key =
    ground (arith, agree_on-lookup key m m m', agree_on-lookup key m' m m')
