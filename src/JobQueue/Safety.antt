-- ===== src/JobQueue/Safety.antt =====
-- When the job queue controller starts Jobs: never against their start policy, in the order of
-- their creation, and with the store as it was if a start fails.
use furiko.Prelude.{
  ℤ, pos, ◌≡◌, ap, Bool, true, false, not, ◌&&◌, ◌||◌, List, [], ◌∷◌, Option, none, some, arith,
  ltb_ℤ, any,
}
use furiko.Ktime.{is_time_set_and_later}
use furiko.Api.Job.{Job}
use furiko.Api.JobConfig.{JobConfig}
use furiko.JobQueue.{
  Env, World, Action, start, ok, is_forbid, is_enqueue, can_start_job, start_job, start_jobs,
  started_job, interfere, settle, reject_job, enqueue, sync_one, list_queued_jobs, Lookup, found,
  not_found, lookup_error,
}
use furiko.Store.{count_active_jobs_for_config}

module _ (env : Env) where
  -- May a Job be started, now and with a count of active Jobs?
  abbrev pub is_allowed : Job → ℤ → Bool
  is_allowed rj count = elim rj.spec.start_policy [
    | none ↦ true
    | some spec ↦
        not (is_time_set_and_later env.now spec.start_after)
        && (not (is_forbid spec.concurrency_policy || is_enqueue spec.concurrency_policy)
            || not (ltb_ℤ (pos 0) count))
  ]

  abbrev pub breaks_policy : Action → Bool
  breaks_policy (start rj count) = not (is_allowed rj count)
  breaks_policy _ = false

  can_start_job-breaks :
      (rjc : JobConfig) (rj : Job) (count : ℤ) (w : World)
      → any breaks_policy (can_start_job env rjc rj count w).1.actions ≡ any breaks_policy w.actions
  unfolding can_start_job reject_job enqueue
  can_start_job-breaks rjc rj count w = ground arith

  can_start_job-allowed :
      (rjc : JobConfig) (rj : Job) (count : ℤ) (w : World)
      → (can_start_job env rjc rj count w).0 ≡ ok true
      → is_allowed rj count ≡ true
  unfolding can_start_job reject_job enqueue
  can_start_job-allowed rjc rj count w e = ground arith

  start_job-breaks :
      (panic : Bool) (rjc : JobConfig) (rj : Job) (count : ℤ) (w : World)
      → is_allowed rj count ≡ true
      → any breaks_policy w.actions ≡ false
      → any breaks_policy (start_job env panic rjc rj count w).1.actions ≡ false
  unfolding start_job started_job
  start_job-breaks panic rjc rj count w allowed e = ground arith

  start_jobs-allowed :
      (panic : Bool) (rjc : JobConfig) (rjs : List Job) (count : ℤ) (w : World)
      → any breaks_policy w.actions ≡ false
      → any breaks_policy (start_jobs env panic rjc rjs count w).1.actions ≡ false
  unfolding start_jobs
  start_jobs-allowed panic rjc [] count w e = e
  start_jobs-allowed panic rjc (rj ∷ rjs) count w e =
      let (can, w1) = can_start_job env rjc rj count w in
      let (out, w2) = start_job env panic rjc rj count (interfere env rj w1) in
      let w3 = settle env rj w2 in
      ground (
        arith,
        can_start_job-breaks rjc rj count w,
        can_start_job-allowed rjc rj count w,
        start_job-breaks panic rjc rj count (interfere env rj w1),
        start_jobs-allowed panic rjc rjs count w1,
        start_jobs-allowed panic rjc rjs (count_active_jobs_for_config w3.store rjc) w3,
      )

-- Whatever the other routines do to the store, a sync that begins with no action starts no Job
-- before its start time, and no Job of policy Forbid or Enqueue where the count that the sync read
-- last is positive.
pub sync_one-allowed :
    (env : Env) (panic : Bool) (rjc : Lookup JobConfig) (listed : Option (List Job)) (w : World)
    → w.actions ≡ []
    → any (breaks_policy env) (sync_one env panic rjc listed w).1.actions ≡ false
unfolding sync_one
sync_one-allowed env panic not_found listed w e = ap (any (breaks_policy env)) e
sync_one-allowed env panic lookup_error listed w e = ap (any (breaks_policy env)) e
sync_one-allowed env panic (found rjc) none w e = ap (any (breaks_policy env)) e
sync_one-allowed env panic (found rjc) (some jobs) w e =
    start_jobs-allowed env panic rjc (list_queued_jobs jobs)
      (count_active_jobs_for_config w.store rjc) w (ap (any (breaks_policy env)) e)
