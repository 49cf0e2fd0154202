-- ===== src/JobQueue/Exclusion.antt =====
-- How the active job store bounds what a sync starts.
use furiko.Prelude.{
  ℕ, ◌+◌, ◌<◌, ◌≤◌, ℤ, pos, ◌≡◌, Bool, true, false, ◌||◌, List, [], ◌∷◌, none, some, Option-cases,
  Bool-cases, inl, inr, arith, String, suc, str_eq, pos_part, not, if◌then◌else◌,
}
use furiko.Api.Job.{Job}
use furiko.Api.JobConfig.{JobConfig}
use furiko.JobQueue.{
  Env, World, Action, start, reject, enqueue_after, failed, is_forbid, is_enqueue, start_job, Error,
}
use furiko.Store.{Store, check_and_add, delete, count_active_jobs_for_config}
use furiko.Store.Counter
use furiko.Store.Counter.{get}
use furiko.Store.Accounting.{limit, one_if, decrement-get}

-- Does the start policy let the Job run only alone?
abbrev pub is_exclusive : Job → Bool
is_exclusive rj = elim rj.spec.start_policy [
  | none ↦ false
  | some spec ↦ is_forbid spec.concurrency_policy || is_enqueue spec.concurrency_policy
]

-- How many such Jobs the actions start.
abbrev pub exclusive_starts : List Action → ℕ
exclusive_starts [] = 0
exclusive_starts (start rj count ∷ actions) = one_if (is_exclusive rj) + exclusive_starts actions
exclusive_starts (reject rj ∷ actions) = exclusive_starts actions
exclusive_starts (enqueue_after d ∷ actions) = exclusive_starts actions

check_and_add-unchanged :
    (s : Store) (rjc : JobConfig) (n : ℤ)
    → (check_and_add s rjc n).1 ≡ false
    → (check_and_add s rjc n).0 ≡ s
unfolding check_and_add Counter.check_and_add
check_and_add-unchanged s rjc n e = ground arith

-- What a Delete leaves of the counts.
delete-get :
    (panic : Bool) (s s' : Store) (rjc : JobConfig) (m : ℕ)
    → m < limit
    → get s.counter rjc.metadata.uid ≡ pos (suc m)
    → delete panic s rjc ≡ some s'
    → (k : String)
    → get s'.counter k ≡ (if str_eq rjc.metadata.uid k then pos m else get s.counter k)
unfolding delete
delete-get panic s s' rjc m small had deleted k =
    ground (arith, decrement-get panic s s' rjc.metadata.uid k m small)

-- A start that ends with an error leaves the counts as they were if its CheckAndAdd failed.
-- Otherwise it takes back the one that it added: the count of the JobConfig is one less than the
-- other routines left it at the end of the write, and the other counts are what they left. The
-- count that the sync saw is a number below 2^62, and so is the one left.
pub start_job-restores :
    (env : Env) (panic : Bool) (rjc : JobConfig) (rj : Job) (n m : ℕ) (w : World) {e : Error}
    → n < limit
    → m < limit
    → ((check_and_add w.store rjc (pos n)).1 ≡ true
        → get (env.during_write rj (check_and_add w.store rjc (pos n)).0).counter rjc.metadata.uid
          ≡ pos (suc m))
    → (start_job env panic rjc rj (pos n) w).0 ≡ failed e
    → (k : String)
    → get (start_job env panic rjc rj (pos n) w).1.store.counter k ≡ (
        if not (check_and_add w.store rjc (pos n)).1
        then get w.store.counter k
        else if str_eq rjc.metadata.uid k
        then pos m
        else get (env.during_write rj (check_and_add w.store rjc (pos n)).0).counter k)
unfolding start_job
start_job-restores env panic rjc rj n m w small room had failure k =
    let (s', added) = check_and_add w.store rjc (pos n) in
    let written = env.during_write rj s' in
    elim (Option-cases (delete panic written rjc)) [
      | inl e ↦ ground arith
      | inr (s, e) ↦ elim (Bool-cases added) [
        | inl a ↦ ground (arith, delete-get panic written s rjc m room (had a) e k)
        | inr a ↦ ground (arith, check_and_add-unchanged w.store rjc (pos n) a)
      ]
    ]

module _ (env : Env) where
  -- The count of the JobConfig, and a way in which other routines change the store: they do not
  -- lower the count, and raise it by at most `k`.
  abbrev pub counted : JobConfig → Store → ℕ
  counted rjc s = pos_part (count_active_jobs_for_config s rjc)

  abbrev pub OnlyRaises : JobConfig → ℕ → (Job → Store → Store) → Type 0
  OnlyRaises rjc k others =
      (rj : Job) (s : Store) (n : ℕ)
      → count_active_jobs_for_config s rjc ≡ pos n
      → (count_active_jobs_for_config (others rj s) rjc ≡ pos (counted rjc (others rj s)))
        × (n ≤ counted rjc (others rj s))
        × (counted rjc (others rj s) ≤ n + k)

  -- What the counts may come to in the loop.
  abbrev pub growth : ℕ → List Job → ℕ
  growth k [] = 0
  growth k (rj ∷ rjs) = 1 + k + k + growth k rjs
