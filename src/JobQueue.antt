-- ===== src/JobQueue.antt =====
-- pkg/execution/controllers/jobqueuecontroller: which queued Jobs of a JobConfig are started.
-- The API server and the other routines are parameters: `Env` says how each write ends and what the
-- others did to the store before a Job's CheckAndAdd, between it and the end of the write, and between
-- a start and the reading of the count for the next Job. The clock is read once for each sync.
pub mod Safety
pub mod Order
pub mod Independent
pub mod Exclusion
use furiko.Prelude.{
  ℤ, pos, Bool, true, false, not, ◌&&◌, List, [], ◌∷◌, Option, none, some, String, if◌then◌else◌,
  select, ltb_ℤ,
}
use furiko.Ktime.{
  Time, Duration, before, is_time_set_and_later, sub, unwrap_meta_v1_time, duration_max, second,
}
use furiko.Api.Job.{Job, ConcurrencyPolicy, StartPolicySpec}
use furiko.Api.JobConfig.{JobConfig}
use furiko.JobUtil.Queries.{is_queued, mark_admission_error}
use furiko.Store.{Store, check_and_add, delete, count_active_jobs_for_config}

pub record Env : Type 0 where
  pub now : Time
  pub update_status_ok : Job → Bool
  pub update_ok : Job → Bool
  pub before_add : Job → Store → Store
  pub during_write : Job → Store → Store
  pub after_start : Job → Store → Store
  pub sprintf : String → String → ℤ → ConcurrencyPolicy → String

-- What the controller asks of the outside, in order: the write of StartJob with the count that its
-- CheckAndAdd saw, the write of RejectJob, and a later sync.
pub data Action : Type 0 where
  start : Job → ℤ → Action
  reject : Job → Action
  enqueue_after : Duration → Action

pub record World : Type 0 where
  pub store : Store
  pub actions : List Action

pub data Error : Type 0 where
  reject_failed concurrent_add start_failed lookup_failed list_failed : Error

-- How a call ends: with a value, with an error, or with a panic of the store.
pub data Outcome (A : Type 0) : Type 0 where
  ok : A → Outcome A
  failed : Error → Outcome A
  panicked : Outcome A

abbrev pub act : Action → World → World
act a w = record w { actions = a ∷ w.actions }

abbrev pub is_forbid : ConcurrencyPolicy → Bool
is_forbid ConcurrencyPolicy.forbid = true
is_forbid _ = false

abbrev pub is_enqueue : ConcurrencyPolicy → Bool
is_enqueue ConcurrencyPolicy.enqueue = true
is_enqueue _ = false

-- enqueueAfter, with its lower bound of a second.
unfoldable pub enqueue : Duration → World → World
enqueue duration w = act (enqueue_after (duration_max second duration)) w

module _ (env : Env) where
  -- JobControl.StartJob and RejectJob: the Job that is written.
  unfoldable pub started_job : Job → Job
  started_job rj = record rj { status = record (rj.status) { start_time = some env.now } }

  unfoldable pub start_job_write : Job → Bool
  unfolding started_job
  start_job_write rj = env.update_status_ok (started_job rj)

  unfoldable pub reject_job : Job → String → World → Outcome Bool × World
  reject_job rj msg w =
      let new_rj = mark_admission_error rj msg in
      (if env.update_ok new_rj then ok false else failed reject_failed, act (reject new_rj) w)

  -- The messages of canStartJob.
  abbrev reject_message : JobConfig → ℤ → ConcurrencyPolicy → String
  reject_message rjc active_count policy =
      env.sprintf "Cannot start new Job, %v has %v active Jobs but concurrency policy is %v"
        rjc.metadata.name active_count policy

  abbrev check_policy : JobConfig → Job → ℤ → Option StartPolicySpec → World → Outcome Bool × World
  check_policy rjc rj active_count none w = (ok true, w)
  check_policy rjc rj active_count (some spec) w =
      if is_time_set_and_later env.now spec.start_after
      then (ok false, enqueue (sub (unwrap_meta_v1_time spec.start_after) env.now) w)
      else if is_forbid spec.concurrency_policy && ltb_ℤ (pos 0) active_count
      then reject_job rj (reject_message rjc active_count spec.concurrency_policy) w
      else if is_enqueue spec.concurrency_policy && ltb_ℤ (pos 0) active_count
      then (ok false, w)
      else (ok true, w)

  unfoldable pub can_start_job : JobConfig → Job → ℤ → World → Outcome Bool × World
  unfolding reject_job enqueue
  can_start_job rjc rj active_count w = check_policy rjc rj active_count rj.spec.start_policy w

  abbrev undo_add : Option Store → World → Outcome Unit × World
  undo_add none w = (panicked, w)
  undo_add (some s) w = (failed start_failed, record w { store = s })

  -- The deferred Delete runs if StartJob fails.
  unfoldable pub start_job : Bool → JobConfig → Job → ℤ → World → Outcome Unit × World
  unfolding start_job_write
  start_job panic rjc rj old_count w =
      let (s, added) = check_and_add w.store rjc old_count in
      let written = env.during_write rj s in
      let w' = act (start (started_job rj) old_count) (record w { store = written }) in
      if not added
      then (failed concurrent_add, w)
      else if start_job_write rj
      then (ok tt, w')
      else undo_add (delete panic written rjc) w'

  -- Other routines may change the store before the CheckAndAdd of a Job.
  abbrev pub interfere : Job → World → World
  interfere rj w = record w { store = env.before_add rj w.store }

  -- Others may change it also before the count is read again.
  abbrev pub settle : Job → World → World
  settle rj w = record w { store = env.after_start rj w.store }

  -- The loop of SyncOne over the queued Jobs, `active_count` being its variable. A refused Job is
  -- passed over; an error ends the sync.
  unfoldable pub start_jobs : Bool → JobConfig → List Job → ℤ → World → Outcome Unit × World
  unfolding can_start_job start_job
  start_jobs panic rjc [] active_count w = (ok tt, w)
  start_jobs panic rjc (rj ∷ rjs) active_count w =
      let (can, w1) = can_start_job rjc rj active_count w in
      elim can [
        | failed e ↦ (failed e, w1)
        | panicked ↦ (panicked, w1)
        | ok false ↦ start_jobs panic rjc rjs active_count w1
        | ok true ↦
            let (out, w2) = start_job panic rjc rj active_count (interfere rj w1) in
            elim out [
              | failed e ↦ (failed e, w2)
              | panicked ↦ (panicked, w2)
              | ok _ ↦
                  let w3 = settle rj w2 in
                  start_jobs panic rjc rjs (count_active_jobs_for_config w3.store rjc) w3
            ]
      ]

-- `sort.Slice` by creation time, as an insertion sort.
unfoldable pub insert_job : Job → List Job → List Job
insert_job rj [] = rj ∷ []
insert_job rj (j ∷ jobs) =
    if before j.metadata.creation_timestamp rj.metadata.creation_timestamp
    then j ∷ insert_job rj jobs
    else rj ∷ j ∷ jobs

unfoldable pub sort_jobs : List Job → List Job
unfolding insert_job
sort_jobs [] = []
sort_jobs (rj ∷ jobs) = insert_job rj (sort_jobs jobs)

-- listQueuedJobsForJobConfig, from what the lister answers for the label of the JobConfig.
unfoldable pub list_queued_jobs : List Job → List Job
unfolding sort_jobs
list_queued_jobs jobs = sort_jobs (select is_queued jobs)

-- What a lister answers to a Get.
pub data Lookup (A : Type 0) : Type 0 where
  found : A → Lookup A
  not_found lookup_error : Lookup A

unfoldable pub sync_one :
    Env → Bool → Lookup JobConfig → Option (List Job) → World → Outcome Unit × World
unfolding start_jobs list_queued_jobs
sync_one env panic not_found listed w = (ok tt, w)
sync_one env panic lookup_error listed w = (failed lookup_failed, w)
sync_one env panic (found rjc) none w = (failed list_failed, w)
sync_one env panic (found rjc) (some jobs) w =
    start_jobs env panic rjc (list_queued_jobs jobs) (count_active_jobs_for_config w.store rjc) w
