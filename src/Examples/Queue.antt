-- ===== src/Examples/Queue.antt =====
-- The theorems on the queue controller for a queue of Jobs of which only one may run.
use furiko.Prelude.{◌≡◌, refl, pos, ◌+ℤ◌, wrap64, true, false, List, [], ◌∷◌, some, any, arith}
use furiko.Api.Job.{Job, ConcurrencyPolicy}
use furiko.JobQueue.{Env, World, start_job, sync_one, found, start_failed}
use furiko.JobQueue.Safety.{breaks_policy, sync_one-allowed}
use furiko.JobQueue.Order.{in_order, sync_one-in_order}
use furiko.JobQueue.Exclusion.{start_job-restores}
use furiko.Store
use furiko.Store.Counter
use furiko.Meta.{lookup, insert}
use furiko.Store.Counter.{get}
use furiko.Samples.{created_job, job_config, at_second}

-- All writes end well, and nothing else happens.
abbrev calm : Env
calm = record {
  now = at_second 100;
  update_status_ok = λ _. true;
  update_ok = λ _. true;
  before_add = λ _ s. s;
  during_write = λ _ s. s;
  after_start = λ _ s. s;
  sprintf = λ format _ _ _. format;
}

abbrev refusing : Env
refusing = record calm { update_status_ok = λ _. false }

abbrev waiting_job : Job
waiting_job = record created_job {
  spec = record (created_job.spec) {
    start_policy = some record {
      concurrency_policy = ConcurrencyPolicy.enqueue;
      start_after = some (at_second 50);
    };
  };
}

abbrev later_job : Job
later_job = record waiting_job {
  metadata = record (waiting_job.metadata) { creation_timestamp = at_second 5; name = "job-2" };
}

abbrev quiet : World
quiet = record { store = record { counter = []; recovered = true }; actions = [] }

abbrev queued_jobs : List Job
queued_jobs = later_job ∷ waiting_job ∷ []

sync_one-allowed_example :
    any
      (breaks_policy calm)
      (sync_one calm true (found job_config) (some queued_jobs) quiet).1.actions
    ≡ false
sync_one-allowed_example =
    sync_one-allowed calm true (found job_config) (some queued_jobs) quiet refl

sync_one-in_order_example :
    in_order (sync_one calm true (found job_config) (some queued_jobs) quiet).1.actions ≡ true
sync_one-in_order_example =
    sync_one-in_order calm true (found job_config) (some queued_jobs) quiet refl

start_job-restores_example :
    get
      (start_job refusing true job_config waiting_job (pos 0) quiet).1.store.counter
      "uid-config-1"
    ≡ pos 0
unfolding start_job Store.check_and_add Counter.check_and_add Store.delete Counter.remove lookup
    insert wrap64 ◌+ℤ◌
start_job-restores_example =
    start_job-restores refusing true job_config waiting_job 0 0 quiet {e = start_failed}
      (omega arith) (omega arith) (λ _. refl) refl "uid-config-1"
