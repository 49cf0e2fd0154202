-- ===== src/Cron/Reconcile.antt =====
-- croncontroller/reconciler.go and control.go: the Job of a schedule that is due is made. The logs and
-- the traces are left out.
use furiko.Prelude.{
  pos, Bool, true, false, ◌&&◌, ◌||◌, List, [], ◌∷◌, Option, none, some, String, if◌then◌else◌,
  ltb_ℤ, leb_ℤ,
}
use furiko.Ktime.{Time}
use furiko.Api.Config.{JobConfigExecutionConfig}
use furiko.Api.Job.{Job, JobType, ConcurrencyPolicy}
use furiko.Api.JobConfig.{JobConfig}
use furiko.Store.{Store, count_active_jobs_for_config}
use furiko.JobConfigUtil.{Lookup, found, missing, failed, new_job_from_job_config}
use furiko.Cron.Keys.{split_job_config_key_name}

-- What the cache answers for a Job's name, and the API server for a new Job.
pub data Exists : Type 0 where
  exists not_found lookup_failed : Exists

pub data CreateAnswer : Type 0 where
  created : Job → CreateAnswer
  invalid error : CreateAnswer

pub record Env : Type 0 where
  pub now : Time
  pub job_configs : Option JobConfigExecutionConfig
  pub lister : String → String → Lookup
  pub store : Store
  pub job_exists : String → String → Exists
  pub create : Job → CreateAnswer

-- What is sent to the API server, or recorded as an event.
pub data Action : Type 0 where
  create_job : Job → Action
  skipped_job_schedule : JobConfig → Time → Action
  created_job create_job_failed : Job → Action

pub data Outcome : Type 0 where
  done errored panicked : Outcome

abbrev is_forbid : ConcurrencyPolicy → Bool
is_forbid ConcurrencyPolicy.forbid = true
is_forbid _ = false

abbrev is_queue_full : JobConfigExecutionConfig → JobConfig → Bool
is_queue_full cfg rjc = elim cfg.max_enqueued_jobs [
  | none ↦ false
  | some max ↦ leb_ℤ max rjc.status.queued
]

abbrev with_start_policy : JobConfig → Job → Job
with_start_policy rjc rj = record rj {
  spec = record (rj.spec) {
    start_policy =
        some (record { concurrency_policy = rjc.spec.concurrency.policy; start_after = none });
  };
}

module _ (env : Env) where
  -- ExecutionControl.CreateJob.
  unfoldable pub create_job_of : Job → Outcome × List Action
  create_job_of rj = elim (env.create rj) [
    | created created_rj ↦ (done, create_job rj ∷ created_job created_rj ∷ [])
    | invalid ↦ (done, create_job rj ∷ create_job_failed rj ∷ [])
    | error ↦ (errored, create_job rj ∷ [])
  ]

  abbrev create_unless_exists : Job → Outcome × List Action
  create_unless_exists rj = elim (env.job_exists rj.metadata.namespace rj.metadata.name) [
    | exists ↦ (done, [])
    | not_found ↦ create_job_of rj
    | lookup_failed ↦ (errored, [])
  ]

  abbrev create_made : JobConfig → Option Job → Outcome × List Action
  create_made rjc none = (errored, [])
  create_made rjc (some rj) = create_unless_exists (with_start_policy rjc rj)

  -- Is the schedule skipped?
  abbrev is_skipped : JobConfigExecutionConfig → JobConfig → Bool
  is_skipped cfg rjc =
      is_forbid rjc.spec.concurrency.policy
        && ltb_ℤ (pos 0) (count_active_jobs_for_config env.store rjc)
      || is_queue_full cfg rjc

  abbrev process_found : JobConfigExecutionConfig → JobConfig → Time → Outcome × List Action
  process_found cfg rjc schedule_time =
      if is_skipped cfg rjc
      then (done, skipped_job_schedule rjc schedule_time ∷ [])
      else create_made rjc (new_job_from_job_config env.now rjc JobType.scheduled schedule_time)

  -- An error of the lister other than that of a missing JobConfig is not looked at: the code goes on
  -- with a nil JobConfig, whose UID it reads.
  abbrev process_looked_up : JobConfigExecutionConfig → Time → Lookup → Outcome × List Action
  process_looked_up cfg schedule_time (found rjc) = process_found cfg rjc schedule_time
  process_looked_up cfg schedule_time missing = (done, [])
  process_looked_up cfg schedule_time failed = (panicked, [])

  unfoldable pub process_cron_for_config : String → String → Time → Outcome × List Action
  unfolding create_job_of count_active_jobs_for_config new_job_from_job_config
  process_cron_for_config namespace name schedule_time = elim env.job_configs [
    | none ↦ (errored, [])
    | some cfg ↦ process_looked_up cfg schedule_time (env.lister namespace name)
  ]

  unfoldable pub sync_one : String → String → Outcome × List Action
  unfolding split_job_config_key_name process_cron_for_config
  sync_one namespace name = elim (split_job_config_key_name name) [
    | none ↦ (errored, [])
    | some item ↦ let (config_name, ts) = item in process_cron_for_config namespace config_name ts
  ]

  -- The Jobs that are sent to the API server.
  abbrev pub created_jobs : List Action → List Job
  created_jobs [] = []
  created_jobs (create_job rj ∷ actions) = rj ∷ created_jobs actions
  created_jobs (skipped_job_schedule rjc t ∷ actions) = created_jobs actions
  created_jobs (created_job rj ∷ actions) = created_jobs actions
  created_jobs (create_job_failed rj ∷ actions) = created_jobs actions

  abbrev is_not_found : Exists → Bool
  is_not_found exists = false
  is_not_found not_found = true
  is_not_found lookup_failed = false
