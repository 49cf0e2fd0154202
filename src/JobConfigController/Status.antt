-- ===== src/JobConfigController/Status.antt =====
-- What the status of a JobConfig tells of its Jobs.
use furiko.Prelude.{
  suc, ◌+◌, ◌≤◌, ℤ, pos, ◌≡◌, refl, ◌∙◌, ap, Bool, true, false, not, ◌&&◌, List, [], ◌∷◌, Option,
  none, some, String, length, select, any, arith, leb_ℤ, ◌||◌, All, ◌==◌,
}
use furiko.Ktime.{Time, is_zero, zero_time, time_max, unwrap_meta_v1_time}
use furiko.Api.Job.{Job}
use furiko.Api.JobConfig.{JobConfig, JobConfigState, executing, job_queued, JobReference}
use furiko.JobUtil.Queries.{is_active, is_queued}
use furiko.JobConfigController.{
  to_job_references, insert_reference, get_state, later_of, get_label_schedule_time,
  last_schedule_time_from, get_last_schedule_time, update_status,
}

length-insert_reference :
    (ref : JobReference) (refs : List JobReference)
    → length (insert_reference ref refs) ≡ suc (length refs)
unfolding insert_reference
length-insert_reference ref [] = refl
length-insert_reference ref (r ∷ refs) = ground (arith, length-insert_reference ref refs)

length-to_job_references : (items : List Job) → length (to_job_references items) ≡ length items
unfolding to_job_references
length-to_job_references [] = refl
length-to_job_references (item ∷ items) =
    length-insert_reference _ (to_job_references items) ∙ ap suc (length-to_job_references items)

is_active-excludes : (rj : Job) → is_active rj ≡ true → is_queued rj ≡ false
unfolding is_active is_queued
is_active-excludes rj e = ground arith

length-select-disjoint :
    (rjs : List Job) → length (select is_active rjs) + length (select is_queued rjs) ≤ length rjs
length-select-disjoint [] = omega arith
length-select-disjoint (rj ∷ rjs) =
    ground (arith, is_active-excludes rj, length-select-disjoint rjs)

any-select :
    (test : Job → Bool) (rjs : List Job) → any test rjs ≡ not (length (select test rjs) == 0)
any-select test [] = refl
any-select test (rj ∷ rjs) = ground (arith, any-select test rjs)

abbrev pub is_executing : JobConfigState → Bool
is_executing executing = true
is_executing _ = false

abbrev pub is_job_queued : JobConfigState → Bool
is_job_queued job_queued = true
is_job_queued _ = false

module _ (atoi : String → Option ℤ) where
  -- The status has the number of the active and of the queued Jobs, and its references to both are
  -- together no more than the Jobs.
  pub update_status-counts :
      (rjc : JobConfig) (rjs : List Job)
      → let status = (update_status atoi rjc rjs).status in
        (status.active ≡ pos (length (select is_active rjs)))
        × (status.queued ≡ pos (length (select is_queued rjs)))
        × (length status.active_jobs + length status.queued_jobs ≤ length rjs)
  unfolding update_status
  update_status-counts rjc rjs =
      let active = length-to_job_references (select is_active rjs) in
      let queued = length-to_job_references (select is_queued rjs) in
      (ap pos active, ap pos queued, omega (arith, active, queued, length-select-disjoint rjs))

  -- The state is Executing exactly if some Job is active, and JobQueued exactly if none is and
  -- some Job is queued.
  pub update_status-state :
      (rjc : JobConfig) (rjs : List Job)
      → let state = (update_status atoi rjc rjs).status.state in
        (is_executing state ≡ any is_active rjs)
        × (is_job_queued state ≡ (any is_queued rjs && not (any is_active rjs)))
  unfolding update_status get_state
  update_status-state rjc rjs =
      let active = length-to_job_references (select is_active rjs) in
      let queued = length-to_job_references (select is_queued rjs) in
      (
        ground (arith, active, any-select is_active rjs),
        ground (arith, active, queued, any-select is_active rjs, any-select is_queued rjs),
      )

  last_schedule_time_from-later :
      (last : Time) (rjs : List Job) → leb_ℤ last (last_schedule_time_from atoi last rjs) ≡ true
  unfolding last_schedule_time_from
  last_schedule_time_from-later last [] = ground arith
  last_schedule_time_from-later last (rj ∷ rjs) = ground (
    arith,
    last_schedule_time_from-later (later_of atoi last (get_label_schedule_time atoi rj)) rjs,
  )

  -- A time, if there is one, is not after another.
  abbrev pub is_at_most : Option Time → Time → Bool
  is_at_most none last = true
  is_at_most (some t) last = leb_ℤ t last

  last_schedule_time_from-bound :
      (last : Time) (rjs : List Job)
      → All
          (λ rj.
            is_at_most (get_label_schedule_time atoi rj) (last_schedule_time_from atoi last rjs)
            ≡ true)
          rjs
  unfolding last_schedule_time_from
  last_schedule_time_from-bound last [] = tt
  last_schedule_time_from-bound last (rj ∷ rjs) =
      let next = later_of atoi last (get_label_schedule_time atoi rj) in
      (
        ground (arith, last_schedule_time_from-later next rjs),
        last_schedule_time_from-bound next rjs,
      )

  last_scheduled-later :
      (rjc : JobConfig) (rjs : List Job)
      → let new = unwrap_meta_v1_time (update_status atoi rjc rjs).status.last_scheduled in
        (is_at_most rjc.status.last_scheduled new
          && (leb_ℤ (last_schedule_time_from atoi zero_time rjs) new
              || is_zero (last_schedule_time_from atoi zero_time rjs)))
        ≡ true
  unfolding update_status get_last_schedule_time time_max
  last_scheduled-later rjc rjs = ground (arith, last_schedule_time_from-later zero_time rjs)

  All-widen :
      (last new : Time) (rjs : List Job)
      → (leb_ℤ last new || is_zero last) ≡ true
      → All (λ rj. is_at_most (get_label_schedule_time atoi rj) last ≡ true) rjs
      → All
          (λ rj.
            (is_at_most (get_label_schedule_time atoi rj) new
              || is_at_most (get_label_schedule_time atoi rj) zero_time)
            ≡ true)
          rjs
  All-widen last new [] h bounds = tt
  All-widen last new (rj ∷ rjs) h (b, bounds) = (ground arith, All-widen last new rjs h bounds)

  -- The last schedule in the status is not before the one of the old status, nor before the
  -- schedule time of a Job that is after the zero time.
  pub update_status-last_scheduled :
      (rjc : JobConfig) (rjs : List Job)
      → let new = unwrap_meta_v1_time (update_status atoi rjc rjs).status.last_scheduled in
        (is_at_most rjc.status.last_scheduled new ≡ true)
        × All
            (λ rj.
              (is_at_most (get_label_schedule_time atoi rj) new
                || is_at_most (get_label_schedule_time atoi rj) zero_time)
              ≡ true)
            rjs
  update_status-last_scheduled rjc rjs =
      let later = last_scheduled-later rjc rjs in
      (
        ground arith,
        All-widen (last_schedule_time_from atoi zero_time rjs)
            (unwrap_meta_v1_time (update_status atoi rjc rjs).status.last_scheduled) rjs
            (ground arith) (last_schedule_time_from-bound zero_time rjs),
      )
