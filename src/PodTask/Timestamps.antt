-- ===== src/PodTask/Timestamps.antt =====
-- The times that a pod's task is given.
use furiko.Prelude.{
  ◌≡◌, refl, ◌∙◌, ℤ, pos, negsuc, ◌≤ℤ◌, ◌<ℤ◌, Bool, true, false, not, ◌&&◌, ◌||◌, List, [], ◌∷◌,
  Option, none, some, All, is_some, is_none, leb_ℤ, arith, ◌⊎◌, inl, inr, any, eqb_ℤ, Option-cases,
}
use furiko.Ktime.{
  Time, zero_time, is_zero, is_unix_zero, time_max, add, seconds, add_parts, seconds_exact,
}
use furiko.Api.Pod.{Pod, ContainerStatus}
use furiko.Api.Job.{TaskRef}
use furiko.PodTask.Util.{
  get_termination_status, latest_end, container_terminate_time, get_container_terminate_time,
}
use furiko.PodTask.Status.{get_finish_timestamp, is_finished, is_deadline_exceeded}
use furiko.PodTask.Ref.{get_task_ref}

abbrev pub OnSome {ℓ κ} : {A : Type ℓ} → (A → Type κ) → Option A → Type κ
OnSome P none = Unit
OnSome P (some a) = P a

-- A container that has not ended, or ended by a given time.
abbrev pub ended_by : Time → ContainerStatus → Bool
ended_by t container = elim (get_termination_status container) [
  | none ↦ true
  | some status ↦ is_unix_zero status.finished_at || leb_ℤ status.finished_at t
]

abbrev pub ended_at : Time → ContainerStatus → Bool
ended_at t container = elim (get_termination_status container) [
  | none ↦ false
  | some status ↦ eqb_ℤ status.finished_at t
]

latest_end-bounds :
    (container : ContainerStatus) (t : Time)
    → (t ≤ℤ latest_end container t)
      × (ended_by (latest_end container t) container ≡ true)
      × ((latest_end container t ≡ t) ⊎ (ended_at (latest_end container t) container ≡ true))
unfolding latest_end get_termination_status is_unix_zero time_max
latest_end-bounds container t = ground arith

ended_by-le :
    (t t' : Time) (container : ContainerStatus)
    → t ≤ℤ t'
    → ended_by t container ≡ true
    → ended_by t' container ≡ true
unfolding get_termination_status
ended_by-le t t' container le e = ground arith

terminate_time-bounds :
    (containers : List ContainerStatus) (t : Time)
    → (t ≤ℤ container_terminate_time containers t)
      × All
          (λ container. ended_by (container_terminate_time containers t) container ≡ true)
          containers
      × ((container_terminate_time containers t ≡ t)
          ⊎ (any (ended_at (container_terminate_time containers t)) containers ≡ true))
unfolding container_terminate_time
terminate_time-bounds [] t = (ground arith, tt, inl refl)
terminate_time-bounds (container ∷ rest) t =
    let (grows, ends, one) = latest_end-bounds container t in
    let (grows', ends', one') = terminate_time-bounds rest (latest_end container t) in
    let last = container_terminate_time rest (latest_end container t) in
    (
      omega arith,
      (ended_by-le (latest_end container t) last container grows' ends, ends'),
      elim one' [
        | inl same ↦ elim one [ inl kept ↦ inl (same ∙ kept) | inr at ↦ inr (ground arith) ]
        | inr at ↦ inr (ground arith)
      ],
    )

-- The time at which a pod's containers ended is that of the last of them: each that ended has ended
-- by then, and one ended then unless none has a time after the zero time.
pub get_container_terminate_time-latest :
    (p : Pod)
    → All
        (λ container. ended_by (get_container_terminate_time p) container ≡ true)
        p.status.container_statuses
      × ((get_container_terminate_time p ≡ zero_time)
          ⊎ (any (ended_at (get_container_terminate_time p)) p.status.container_statuses ≡ true))
unfolding get_container_terminate_time
get_container_terminate_time-latest p =
    let (grows, ends, one) = terminate_time-bounds p.status.container_statuses zero_time in
    (ends, one)

-- GetTaskRef answers a ref for every pod but one that is finished by an exceeded deadline that is
-- set, with no container that has an end, and without a start time, of which the code reads the
-- start time.
pub get_task_ref-is_some :
    (now : Time) (p : Pod)
    → is_some (get_task_ref now p)
      ≡ not (
          is_finished p
          && is_zero (get_container_terminate_time p)
          && is_some p.spec.active_deadline_seconds
          && is_deadline_exceeded p
          && is_none p.status.start_time)
unfolding get_task_ref get_finish_timestamp
get_task_ref-is_some now p = ground arith

-- A pod with times after the zero time, and a deadline from 0 up to 292 years.
pub record IsStamped (p : Pod) : Type 0 where
  pub created : zero_time <ℤ p.metadata.creation_timestamp
  pub started : OnSome (λ t. zero_time <ℤ t) p.status.start_time
  pub limited :
      OnSome (λ ads. (pos 0 ≤ℤ ads) × (ads ≤ℤ pos 9_223_372_036)) p.spec.active_deadline_seconds

add_seconds-pos :
    (t : Time) (ads : ℤ)
    → zero_time <ℤ t
    → pos 0 ≤ℤ ads
    → ads ≤ℤ pos 9_223_372_036
    → zero_time <ℤ add t (seconds ads)
add_seconds-pos t (pos n) h low high =
    ground (arith, add_parts t (seconds (pos n)), seconds_exact n)
add_seconds-pos t (negsuc n) h low high = absurd (omega arith)

get_finish_timestamp-set :
    (p : Pod) (t : Time)
    → IsStamped p
    → get_finish_timestamp p ≡ some t
    → is_zero t ≡ not (is_finished p)
unfolding get_finish_timestamp
get_finish_timestamp-set p t stamped e = elim (Option-cases p.status.start_time) [
  | inl h ↦ ground arith
  | inr (start, h) ↦ elim (Option-cases p.spec.active_deadline_seconds) [
    | inl h' ↦ ground arith
    | inr (ads, h') ↦ ground (arith, add_seconds-pos start ads)
  ]
]

-- The ref of a task has a finish time exactly if its pod is finished, for a pod with times after
-- the zero time and a deadline from 0 up to 292 years.
pub get_task_ref-finished :
    (now : Time) (p : Pod) (ref : TaskRef)
    → IsStamped p
    → get_task_ref now p ≡ some ref
    → is_some ref.finish_timestamp ≡ is_finished p
unfolding get_task_ref
get_task_ref-finished now p ref stamped e = elim (Option-cases (get_finish_timestamp p)) [
  | inl h ↦ absurd (ground arith)
  | inr (t, h) ↦ ground (arith, get_finish_timestamp-set p t stamped h)
]
