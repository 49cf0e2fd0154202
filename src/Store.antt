-- ===== src/Store.antt =====
-- pkg/execution/stores/activejobstore/store.go: how many Jobs of each JobConfig are active. The lock
-- of Recover and the logs are left out; a call that panics answers `none`.
pub mod Counter
pub mod Accounting
pub mod Cluster
pub mod Safety
use furiko.Prelude.{
  ℤ, pos, Bool, true, false, not, ◌&&◌, List, [], ◌∷◌, Option, none, some, String, ltb_ℤ,
  if◌then◌else◌,
}
use furiko.Meta.{lookup}
use furiko.Api.Meta.{label_key_job_config_uid}
use furiko.Api.Job.{Job}
use furiko.Api.JobConfig.{JobConfig}
use furiko.JobUtil.Queries.{is_started, is_active}

pub record Store : Type 0 where
  pub counter : Counter.Counter
  pub recovered : Bool

unfoldable pub new_store : Store
new_store = record { counter = Counter.new_counter; recovered = false }

unfoldable pub get_key : Job → Option String
get_key rj = lookup label_key_job_config_uid rj.metadata.labels

unfoldable pub count_active_jobs_for_config : Store → JobConfig → ℤ
count_active_jobs_for_config s rjc = Counter.get s.counter rjc.metadata.uid

unfoldable pub check_and_add : Store → JobConfig → ℤ → Store × Bool
check_and_add s rjc old_count =
    let (counter, res) = Counter.check_and_add s.counter rjc.metadata.uid old_count in
    (record s { counter = counter }, res)

-- `panic` is the variable PanicOnInvariantViolation.
module _ (panic : Bool) where
  unfoldable pub increment : Store → String → Option Store
  increment s key =
      let (counter, count) = Counter.add s.counter key in
      if ltb_ℤ (pos 1) count && panic then none else some (record s { counter = counter })

  unfoldable pub decrement : Store → String → Option Store
  decrement s key =
      let (counter, count) = Counter.remove s.counter key in
      if ltb_ℤ count (pos 0) && panic then none else some (record s { counter = counter })

  unfoldable pub delete : Store → JobConfig → Option Store
  unfolding decrement
  delete s rjc = decrement s rjc.metadata.uid

  unfoldable pub on_update : Store → Job → Job → Option Store
  unfolding decrement increment get_key
  on_update s old_rj new_rj = elim (get_key old_rj) [
    | none ↦ some s
    | some key ↦
        if is_active old_rj && not (is_active new_rj)
        then decrement s key
        else if not (is_active old_rj)
            && is_active new_rj
            && not (not (is_started old_rj) && is_started new_rj)
        then increment s key
        else some s
  ]

  unfoldable pub on_delete : Store → Job → Option Store
  unfolding decrement get_key
  on_delete s rj = elim (get_key rj) [
    | none ↦ some s
    | some key ↦ if is_active rj then decrement s key else some s
  ]

  abbrev pub recover_one : Store → Option String → Bool → Option Store
  recover_one s none active = some s
  recover_one s (some key) active = if active then increment s key else some s

  abbrev pub and_then : Option Store → (Store → Option Store) → Option Store
  and_then none f = none
  and_then (some s) f = f s

  -- The loop of Recover over the listed Jobs.
  unfoldable pub recover_jobs : Store → List Job → Option Store
  unfolding increment get_key
  recover_jobs s [] = some s
  recover_jobs s (rj ∷ jobs) =
      and_then (recover_one s (get_key rj) (is_active rj)) (λ s'. recover_jobs s' jobs)

-- How Recover ends, with the store that it leaves.
pub data Recovery : Type 0 where
  recovered : Store → Recovery
  already_recovered sync_timeout list_failed panicked : Recovery

abbrev finish_recovery : Option Store → Recovery
finish_recovery none = panicked
finish_recovery (some s) = Recovery.recovered (record s { recovered = true })

-- `synced` is the outcome of the wait for the cache, `listed` that of the lister.
unfoldable pub recover : Bool → Store → Bool → Option (List Job) → Recovery
unfolding recover_jobs
recover panic s synced listed =
    if s.recovered then already_recovered else if not synced then sync_timeout else elim listed [
      | none ↦ list_failed
      | some jobs ↦ finish_recovery (recover_jobs panic s jobs)
    ]
