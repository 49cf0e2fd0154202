-- ===== src/Examples/Store.antt =====
-- The theorems on the active job store for one JobConfig and a few Jobs.
use furiko.Prelude.{◌+◌, ◌≡◌, refl, pos, true, [], ◌∷◌, arith, wrap64, ◌+ℤ◌}
use furiko.Meta.{lookup, insert}
use furiko.Api.Job.{Job, JobPhase, is_terminal}
use furiko.JobUtil.Queries.{is_started, is_active}
use furiko.Store.{Store, new_store, check_and_add, on_update, get_key, recover}
use furiko.Store.Counter
use furiko.Store.Counter.{get}
use furiko.Store.Accounting.{active_in}
use furiko.Store.Cluster.{Cluster, IsCounted, counted}
use furiko.Store.Safety.{missed_start_leaks, recover-counts}
use furiko.Samples.{created_job, started_job}

program : Unit {0}
unfolding check_and_add on_update recover new_store Counter.check_and_add get is_active is_terminal
    is_started get_key lookup insert Counter.add wrap64 ◌+ℤ◌
program = tt

-- One Job that is not started, and nothing counted.
abbrev idle : Cluster
idle = record {
  store = record { counter = []; recovered = true };
  jobs = created_job ∷ [];
  pending = [];
}

abbrev let_through : Store
let_through = record { counter = ("uid-config-1", pos 1) ∷ []; recovered = true }

-- The queue controller lets the Job start.
abbrev starting : Cluster
starting = record idle { store = let_through; pending = "uid-config-1" ∷ [] }

recover-counts_example :
    get let_through.counter "uid-config-1"
    ≡ pos (active_in "uid-config-1" (started_job ∷ created_job ∷ []))
unfolding program
recover-counts_example =
    recover-counts true let_through (started_job ∷ created_job ∷ []) (omega arith) refl
      "uid-config-1"

-- The Job ran to its end before the informer reported that it was started.
abbrev ended_job : Job
ended_job = record started_job {
  status = record (started_job.status) { phase = JobPhase.succeeded };
}

starting-IsCounted : IsCounted starting
unfolding program
starting-IsCounted k = ground arith

missed_start_leaks_example :
    get let_through.counter "uid-config-1"
    ≡ pos (
        counted (record { store = let_through; jobs = ended_job ∷ []; pending = [] }) "uid-config-1"
        + 1)
unfolding program
missed_start_leaks_example =
    missed_start_leaks true starting [] [] created_job ended_job let_through "uid-config-1" [] []
      (omega arith) starting-IsCounted refl refl refl refl refl refl
