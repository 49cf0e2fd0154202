-- ===== src/JobQueue/Independent.antt =====
-- pkg/execution/controllers/jobqueuecontroller/reconciler_independent.go: the queue of the Jobs that
-- no JobConfig owns. Its writes are logged with a count of 0.
use furiko.Prelude.{
  pos, ◌≡◌, Bool, false, not, ◌&&◌, List, [], ◌∷◌, none, some, arith, if◌then◌else◌,
}
use furiko.Ktime.{Duration, is_time_set_and_later, sub, unwrap_meta_v1_time}
use furiko.Api.Job.{Job}
use furiko.JobUtil.Queries.{is_queued}
use furiko.JobQueue.{
  Env, World, Action, start, act, Outcome, ok, failed, lookup_failed, start_failed, Lookup, found,
  not_found, lookup_error, started_job, start_job_write, enqueue,
}

-- Is the Job to be started only later?
abbrev pub is_postponed : Env → Job → Bool
is_postponed env rj = elim rj.spec.start_policy [
  | none ↦ false
  | some spec ↦ is_time_set_and_later env.now spec.start_after
]

abbrev time_until_start : Env → Job → Duration
time_until_start env rj = elim rj.spec.start_policy [
  | none ↦ pos 0
  | some spec ↦ sub (unwrap_meta_v1_time spec.start_after) env.now
]

unfoldable pub sync_one : Env → Lookup Job → World → Outcome Unit × World
unfolding enqueue started_job start_job_write
sync_one env not_found w = (ok tt, w)
sync_one env lookup_error w = (failed lookup_failed, w)
sync_one env (found rj) w =
    if not (is_queued rj)
    then (ok tt, w)
    else if is_postponed env rj
    then (ok tt, enqueue (time_until_start env rj) w)
    else (
      if start_job_write env rj then ok tt else failed start_failed,
      act (start (started_job env rj) (pos 0)) w,
    )

abbrev pub starts : List Action → List Job
starts [] = []
starts (start rj count ∷ actions) = rj ∷ starts actions
starts (_ ∷ actions) = starts actions

-- A sync of an independent Job writes a start time exactly if the Job is queued and not postponed.
pub sync_one-starts :
    (env : Env) (rj : Job) (w : World)
    → starts (sync_one env (found rj) w).1.actions ≡ (
        if is_queued rj && not (is_postponed env rj)
        then started_job env rj ∷ starts w.actions
        else starts w.actions)
unfolding sync_one enqueue
sync_one-starts env rj w = ground arith
