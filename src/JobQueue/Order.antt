-- ===== src/JobQueue/Order.antt =====
-- The order in which a sync starts the queued Jobs.
use furiko.Prelude.{
  ◌≡◌, sym, ap, subst, Bool, true, ◌&&◌, List, [], ◌∷◌, ℤ, Option, none, some, arith, ◌≤ℤ◌, leb_ℤ,
  All, Bool-cases, inl, inr, select,
}
use furiko.Ktime.{Time, before}
use furiko.Api.Job.{Job}
use furiko.Api.JobConfig.{JobConfig}
use furiko.JobUtil.Queries.{is_queued}
use furiko.JobQueue.{
  Env, World, Action, start, reject, enqueue_after, ok, can_start_job, start_job, start_jobs,
  started_job, interfere, settle, insert_job, sort_jobs, list_queued_jobs, reject_job, enqueue,
  sync_one, Lookup, found, not_found, lookup_error,
}
use furiko.Store.{count_active_jobs_for_config}

abbrev pub created : Job → Time
created rj = rj.metadata.creation_timestamp

-- Each Job was created no later than all that follow it.
abbrev IsSorted : List Job → Type 0
IsSorted [] = Unit
IsSorted (rj ∷ rjs) = All (λ j. created rj ≤ℤ created j) rjs × IsSorted rjs

All-insert_job :
    (t : Time) (rj : Job) (rjs : List Job)
    → t ≤ℤ created rj
    → All (λ j. t ≤ℤ created j) rjs
    → All (λ j. t ≤ℤ created j) (insert_job rj rjs)
unfolding insert_job
All-insert_job t rj [] h hs = (h, tt)
All-insert_job t rj (x ∷ rjs) h (hx, hs) = ground (arith, All-insert_job t rj rjs h hs)

All-le_trans :
    (t u : Time) (rjs : List Job)
    → t ≤ℤ u
    → All (λ j. u ≤ℤ created j) rjs
    → All (λ j. t ≤ℤ created j) rjs
All-le_trans t u [] h hs = tt
All-le_trans t u (x ∷ rjs) h (hx, hs) = (omega arith, All-le_trans t u rjs h hs)

insert_job-IsSorted : (rj : Job) (rjs : List Job) → IsSorted rjs → IsSorted (insert_job rj rjs)
unfolding insert_job
insert_job-IsSorted rj [] s = (tt, tt)
insert_job-IsSorted rj (x ∷ rjs) (below, s) = elim (Bool-cases (before (created x) (created rj))) [
  | inl e ↦ ground (arith, All-insert_job (created x) rj rjs, insert_job-IsSorted rj rjs s)
  | inr e ↦ ground (arith, All-le_trans (created rj) (created x) rjs)
]

sort_jobs-IsSorted : (rjs : List Job) → IsSorted (sort_jobs rjs)
unfolding sort_jobs
sort_jobs-IsSorted [] = tt
sort_jobs-IsSorted (rj ∷ rjs) = insert_job-IsSorted rj (sort_jobs rjs) (sort_jobs-IsSorted rjs)

-- When the Job that was started last had been created.
abbrev latest : List Action → Option Time
latest [] = none
latest (start rj count ∷ actions) = some (created rj)
latest (reject rj ∷ actions) = latest actions
latest (enqueue_after d ∷ actions) = latest actions

abbrev not_later : Option Time → Time → Bool
not_later none t = true
not_later (some u) t = leb_ℤ u t

-- The Jobs of the log, whose first action is the last, were started in the order of their creation.
abbrev pub in_order : List Action → Bool
in_order [] = true
in_order (start rj count ∷ actions) = not_later (latest actions) (created rj) && in_order actions
in_order (reject rj ∷ actions) = in_order actions
in_order (enqueue_after d ∷ actions) = in_order actions

abbrev IsLater : Option Time → List Job → Type 0
IsLater o rjs = All (λ rj. not_later o (created rj) ≡ true) rjs

IsLater-of_eq : (o o' : Option Time) (rjs : List Job) → o' ≡ o → IsLater o rjs → IsLater o' rjs
IsLater-of_eq o o' rjs e h = subst (λ p. IsLater p rjs) (sym e) h

IsLater-of_started :
    (o : Option Time) (t : Time) (rjs : List Job)
    → o ≡ some t
    → All (λ j. t ≤ℤ created j) rjs
    → IsLater o rjs
IsLater-of_started o t [] e h = tt
IsLater-of_started o t (rj ∷ rjs) e (h, hs) = (ground arith, IsLater-of_started o t rjs e hs)

IsLater-of_none : (o : Option Time) (rjs : List Job) → o ≡ none → IsLater o rjs
IsLater-of_none o [] e = tt
IsLater-of_none o (rj ∷ rjs) e = (ground arith, IsLater-of_none o rjs e)

module _ (env : Env) where
  can_start_job-latest :
      (rjc : JobConfig) (rj : Job) (w : World) (count : ℤ)
      → (latest (can_start_job env rjc rj count w).1.actions ≡ latest w.actions)
        × (in_order (can_start_job env rjc rj count w).1.actions ≡ in_order w.actions)
  unfolding can_start_job reject_job enqueue
  can_start_job-latest rjc rj w count = (ground arith, ground arith)

  start_job-in_order :
      (panic : Bool) (rjc : JobConfig) (rj : Job) (w : World) (count : ℤ)
      → in_order w.actions ≡ true
      → not_later (latest w.actions) (created rj) ≡ true
      → in_order (start_job env panic rjc rj count w).1.actions ≡ true
  unfolding start_job started_job
  start_job-in_order panic rjc rj w count ordered h = ground arith

  start_job-latest :
      (panic : Bool) (rjc : JobConfig) (rj : Job) (w : World) (count : ℤ)
      → (start_job env panic rjc rj count w).0 ≡ ok tt
      → latest (start_job env panic rjc rj count w).1.actions ≡ some (created rj)
  unfolding start_job started_job
  start_job-latest panic rjc rj w count e = ground arith

  start_jobs-in_order :
      (panic : Bool) (rjc : JobConfig) (rjs : List Job) (w : World) (count : ℤ)
      → IsSorted rjs
      → IsLater (latest w.actions) rjs
      → in_order w.actions ≡ true
      → in_order (start_jobs env panic rjc rjs count w).1.actions ≡ true
  unfolding start_jobs
  start_jobs-in_order panic rjc [] w count sorted later ordered = ordered
  start_jobs-in_order panic rjc (rj ∷ rjs) w count (below, sorted) (h, later) ordered =
      let (can, w1) = can_start_job env rjc rj count w in
      let (out, w2) = start_job env panic rjc rj count (interfere env rj w1) in
      let w3 = settle env rj w2 in
      ground (
        arith,
        can_start_job-latest rjc rj w count,
        start_job-in_order panic rjc rj (interfere env rj w1) count,
        start_job-latest panic rjc rj (interfere env rj w1) count,
        IsLater-of_eq (latest w.actions) (latest w1.actions) rjs,
        IsLater-of_started (latest w2.actions) (created rj) rjs,
        start_jobs-in_order panic rjc rjs w1 count sorted,
        start_jobs-in_order panic rjc rjs w3 (count_active_jobs_for_config w3.store rjc) sorted,
      )

-- A sync that begins with no action starts Jobs in the order of their creation only.
pub sync_one-in_order :
    (env : Env) (panic : Bool) (rjc : Lookup JobConfig) (listed : Option (List Job)) (w : World)
    → w.actions ≡ []
    → in_order (sync_one env panic rjc listed w).1.actions ≡ true
unfolding sync_one list_queued_jobs
sync_one-in_order env panic not_found listed w e = ground arith
sync_one-in_order env panic lookup_error listed w e = ground arith
sync_one-in_order env panic (found rjc) none w e = ground arith
sync_one-in_order env panic (found rjc) (some jobs) w e =
    let rjs = sort_jobs (select is_queued jobs) in
    start_jobs-in_order env panic rjc rjs w (count_active_jobs_for_config w.store rjc)
      (sort_jobs-IsSorted (select is_queued jobs))
      (IsLater-of_none (latest w.actions) rjs (ap latest e)) (ap in_order e)
