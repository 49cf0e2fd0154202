-- ===== src/JobUtil/Retries.antt =====
-- When a Job may create another task, and from which time on.
use furiko.Prelude.{
  ℕ, ◌*◌, ◌≤◌, ◌<◌, ℤ, pos, ◌≡◌, ◌≢◌, ◌↔◌, inl, inr, Bool, true, false, Option, none, some, List,
  [], ◌∷◌, arith, any, last?, Bool-cases, Option-cases, ◌<ℤ◌, ◌≤ℤ◌, All,
}
use furiko.Ktime.{Time, add, seconds_exact}
use furiko.Api.Job.{Job, JobTemplateSpec, TaskRef}
use furiko.Tasks.{Task}
use furiko.JobUtil.Queries.{
  allowed_to_create_new_task, get_admission_error_message, has_active_task, has_success_task,
  get_max_allowed_tasks, get_next_allowed_retry, is_unfinished, at, error, RetryError, not_allowed,
  not_yet_finished, max_task_retry_index, max_task_retry_index_from, retry_index_max,
}

-- What AllowedToCreateNewTask promises of a Job.
pub record MayCreate (rj : Job) : Type 0 where
  pub admitted : get_admission_error_message rj ≡ none
  pub idle : has_active_task rj ≡ false
  pub unsuccessful : has_success_task rj ≡ false
  pub below_max : rj.status.created_tasks <ℤ get_max_allowed_tasks rj
  pub not_killed : rj.spec.kill_timestamp ≡ none

pub allowed-MayCreate : (rj : Job) → allowed_to_create_new_task rj ≡ true → MayCreate rj
unfolding allowed_to_create_new_task
allowed-MayCreate rj h = record {
  admitted = ground arith;
  idle = ground arith;
  unsuccessful = ground arith;
  below_max = ground arith;
  not_killed = ground arith;
}

pub allowed_of_MayCreate : (rj : Job) → MayCreate rj → allowed_to_create_new_task rj ≡ true
unfolding allowed_to_create_new_task
allowed_of_MayCreate rj h =
    ground (arith, h.admitted, h.idle, h.unsuccessful, h.below_max, h.not_killed)

any-last {ℓ} :
    {A : Type ℓ} (test : A → Bool) (xs : List A) {x : A}
    → any test xs ≡ false
    → last? xs ≡ some x
    → test x ≡ false
any-last test [] h e = cc
any-last test (x ∷ []) h e = ground arith
any-last test (x ∷ y ∷ xs) h e = any-last test (y ∷ xs) (ground arith) e

next_retry_of_allowed :
    (rj : Job)
    → allowed_to_create_new_task rj ≡ true
    → (e : RetryError) → get_next_allowed_retry rj ≢ error e
unfolding get_next_allowed_retry has_active_task
next_retry_of_allowed rj h e = elim (Option-cases (last? rj.status.tasks)) [
  | inl l ↦ ground arith
  | inr (last, l) ↦
      ground
        (arith, any-last is_unfinished rj.status.tasks {x = last} (allowed-MayCreate rj h).idle l)
]

-- GetNextAllowedRetry answers the error not-allowed exactly when AllowedToCreateNewTask is false,
-- and never the error for a last task that is not finished.
pub get_next_allowed_retry-error :
    (rj : Job)
    → ((get_next_allowed_retry rj ≡ error not_allowed) ↔ (allowed_to_create_new_task rj ≡ false))
      × (get_next_allowed_retry rj ≢ error not_yet_finished)
unfolding get_next_allowed_retry
get_next_allowed_retry-error rj = elim (Bool-cases (allowed_to_create_new_task rj)) [
  | inr refused ↦ ((λ _. refused, λ _. ground arith), λ e. ground arith)
  | inl allowed ↦ (
    (λ e. absurd (next_retry_of_allowed rj allowed not_allowed e), λ refused. ground arith),
    next_retry_of_allowed rj allowed not_yet_finished,
  )
]

-- If a task may be created, the template's retry delay is n seconds with 0 < n ≤ 9223372036, and
-- the last task finished at f, then GetNextAllowedRetry answers f plus n seconds.
pub get_next_allowed_retry-delay :
    (rj : Job) (template : JobTemplateSpec) (last : TaskRef) (f : Time) (n : ℕ)
    → allowed_to_create_new_task rj ≡ true
    → rj.spec.template ≡ some template
    → template.retry_delay_seconds ≡ some (pos n)
    → last? rj.status.tasks ≡ some last
    → last.finish_timestamp ≡ some f
    → 0 < n
    → n ≤ 9_223_372_036
    → get_next_allowed_retry rj ≡ at (add f (pos (n * 1_000_000_000)))
unfolding get_next_allowed_retry has_active_task
get_next_allowed_retry-delay rj template last f n h e d l e' lo hi = ground (
  arith,
  (allowed-MayCreate rj h).idle,
  any-last is_unfinished rj.status.tasks {x = last},
  seconds_exact n hi,
)

abbrev pub IsAtMost : ℤ → Option ℤ → Type 0
IsAtMost m none = Unit
IsAtMost m (some index) = index ≤ℤ m

max_task_retry_index_from-le : (m : ℤ) (tasks : List Task) → m ≤ℤ max_task_retry_index_from m tasks
unfolding max_task_retry_index_from
max_task_retry_index_from-le m [] = omega arith
max_task_retry_index_from-le m (task ∷ tasks) =
    ground (arith, max_task_retry_index_from-le (retry_index_max m task.retry_index) tasks)

retry_index_max-IsAtMost :
    (m bound : ℤ) (index : Option ℤ) → retry_index_max m index ≤ℤ bound → IsAtMost bound index
retry_index_max-IsAtMost m bound none h = tt
retry_index_max-IsAtMost m bound (some index) h = ground arith

max_task_retry_index_from-bound :
    (m : ℤ) (tasks : List Task)
    → All (λ task. IsAtMost (max_task_retry_index_from m tasks) task.retry_index) tasks
unfolding max_task_retry_index_from
max_task_retry_index_from-bound m [] = tt
max_task_retry_index_from-bound m (task ∷ tasks) = (
  retry_index_max-IsAtMost m _ task.retry_index
      (max_task_retry_index_from-le (retry_index_max m task.retry_index) tasks),
  max_task_retry_index_from-bound (retry_index_max m task.retry_index) tasks,
)

-- MaxTaskRetryIndex is at least 0 and at least the retry index of every task that has one.
pub max_task_retry_index-bound :
    (tasks : List Task)
    → (pos 0 ≤ℤ max_task_retry_index tasks)
      × All (λ task. IsAtMost (max_task_retry_index tasks) task.retry_index) tasks
unfolding max_task_retry_index
max_task_retry_index-bound tasks =
    (max_task_retry_index_from-le (pos 0) tasks, max_task_retry_index_from-bound (pos 0) tasks)
