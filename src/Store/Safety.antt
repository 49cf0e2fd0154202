-- ===== src/Store/Safety.antt =====
-- The count of the store is right in every reachable state, and guards the start of Jobs.
use furiko.Prelude.{
  ℕ, ◌+◌, ◌<◌, ℤ, pos, ◌≡◌, refl, Bool, true, false, not, ◌&&◌, ◌||◌, List, [], ◌∷◌, ◌++◌, some,
  String, eq_iff, eq_refl, eqb_ℤ, arith, length, length-append, ◌∙◌, ap, inl, inr, Option-cases,
}
use furiko.Meta.{lookup}
use furiko.Api.Job.{Job}
use furiko.Api.JobConfig.{JobConfig}
use furiko.JobUtil.Queries.{is_active}
use furiko.Store.{
  Store, get_key, check_and_add, delete, on_update, recover_jobs, recover_one, recover, recovered,
  new_store,
}
use furiko.Store.Counter
use furiko.Store.Counter.{get}
use furiko.Store.Accounting.{
  limit, one_if, is_key, active_in, increment-get, decrement-get, check_and_add-get,
}
use furiko.Store.Cluster.{
  Cluster, Step, start, start_undone, start_independent, create, update, update_started, remove,
  keys_in, counted, IsCounted, HasRoom, one_if-le, is_start, active_in-append, keys_in-append,
  active_in-le, keys_in-le, start-IsCounted, on_update-get, on_delete-get,
}

-- The other Jobs and starts of a key, where one Job stands between two lists.
abbrev rest_of : List Job → List Job → List String → String → ℕ
rest_of xs ys ps k = active_in k xs + active_in k ys + keys_in k ps

rest_of-lt :
    (xs ys : List Job) (rj : Job) (ps : List String)
    → length (xs ++ rj ∷ ys) + length ps < limit
    → (k : String) → rest_of xs ys ps k < limit
rest_of-lt xs ys rj ps room k =
    omega (arith, length-append xs (rj ∷ ys), active_in-le k xs, active_in-le k ys, keys_in-le k ps)

-- The count of a key, with one Job taken apart.
counted-split :
    (c : Cluster) (xs ys : List Job) (rj : Job)
    → c.jobs ≡ xs ++ rj ∷ ys
    → IsCounted c
    → (k : String)
    → get c.store.counter k
      ≡ pos (one_if (is_key k (get_key rj) && is_active rj) + rest_of xs ys c.pending k)
counted-split c xs ys rj e inv k =
    inv k ∙ ap pos (omega (arith, ap (active_in k) e, active_in-append k xs (rj ∷ ys)))

split-lt :
    (c : Cluster) (xs ys : List Job) (rj : Job)
    → c.jobs ≡ xs ++ rj ∷ ys
    → HasRoom c
    → (k : String) → rest_of xs ys c.pending k < limit
split-lt c xs ys rj e room = rest_of-lt xs ys rj c.pending (omega (arith, ap length e))

-- What an update in the middle of the Jobs leaves in the counter.
update-get :
    (panic : Bool) (c : Cluster) (xs ys : List Job) (old new : Job) (s : Store)
    → c.jobs ≡ xs ++ old ∷ ys
    → HasRoom c
    → IsCounted c
    → on_update panic c.store old new ≡ some s
    → (k : String)
    → get s.counter k
      ≡ pos (
          one_if
            (is_key k (get_key old) && is_active new && (is_active old || not (is_start old new)))
          + rest_of xs ys c.pending k)
update-get panic c xs ys old new s at room inv e =
    on_update-get panic c.store s old new (rest_of xs ys c.pending) (split-lt c xs ys old at room)
      (counted-split c xs ys old at inv) e

active_of_quiet :
    (old new : Job)
    → is_start old new ≡ false
    → (is_active new && (is_active old || not (is_start old new))) ≡ is_active new
active_of_quiet old new quiet = ground arith

inactive_of_start : (old new : Job) → is_start old new ≡ true → is_active old ≡ false
unfolding is_active
inactive_of_start old new started = ground arith

-- A Delete takes one start of its JobConfig out of those that are not reported.
start_undone-get :
    (panic : Bool) (c : Cluster) (rjc : JobConfig) (s : Store) (ps qs : List String)
    → IsCounted c
    → HasRoom c
    → c.pending ≡ ps ++ rjc.metadata.uid ∷ qs
    → delete panic c.store rjc ≡ some s
    → (k : String) → get s.counter k ≡ pos (active_in k c.jobs + keys_in k (ps ++ qs))
unfolding delete
start_undone-get panic c rjc s ps qs inv room waits deleted k =
    let uid = rjc.metadata.uid in
    let left = active_in uid c.jobs + keys_in uid (ps ++ qs) in
    let small : left < limit = omega (
      arith,
      active_in-le uid c.jobs,
      keys_in-le uid (ps ++ qs),
      length-append ps qs,
      length-append ps (uid ∷ qs),
      ap length waits,
    ) in
    ground (
      arith,
      eq_iff uid k,
      eq_refl uid,
      inv k,
      inv uid,
      ap (keys_in k) waits,
      ap (keys_in uid) waits,
      keys_in-append k ps (uid ∷ qs),
      keys_in-append uid ps (uid ∷ qs),
      keys_in-append k ps qs,
      keys_in-append uid ps qs,
      decrement-get panic c.store s uid k left small,
    )

-- Every event keeps the count right.
pub Step-IsCounted :
    (panic : Bool) {c d : Cluster} → Step panic c d → HasRoom c → IsCounted c → IsCounted d
Step-IsCounted panic (start c rjc n e small) room inv k =
    ground (arith, start-IsCounted c rjc n inv e small k)
Step-IsCounted panic (start_undone c rjc s ps qs waits deleted) room inv k =
    start_undone-get panic c rjc s ps qs inv room waits deleted k
Step-IsCounted panic (create c rj idle) room inv k = ground (arith, inv k)
Step-IsCounted panic (update c xs ys old new s at same quiet e) room inv k =
    ground
      (arith, update-get panic c xs ys old new s at room inv e k, active_in-append k xs (new ∷ ys))
Step-IsCounted panic
      (update_started c xs ys old new s key ps qs at old_key new_key started active waits e) room
      inv k =
    ground (
      arith,
      update-get panic c xs ys old new s at room inv e k,
      inactive_of_start old new started,
      active_in-append k xs (new ∷ ys),
      ap (keys_in k) waits,
      keys_in-append k ps (key ∷ qs),
      keys_in-append k ps qs,
    )
Step-IsCounted panic (start_independent c xs ys old new s at old_key new_key e) room inv k =
    ground
      (arith, update-get panic c xs ys old new s at room inv e k, active_in-append k xs (new ∷ ys))
Step-IsCounted panic (remove c xs ys rj s at e) room inv k = ground (
  arith,
  active_in-append k xs ys,
  on_delete-get panic c.store s rj (rest_of xs ys c.pending) (split-lt c xs ys rj at room)
      (counted-split c xs ys rj at inv) e k,
)

-- The states that a run reaches from a cluster, as long as the counters have room.
pub data Reach (panic : Bool) (c : Cluster) : Cluster → Type 0 where
  here : Reach panic c c
  next : {d e : Cluster} → Reach panic c d → HasRoom d → Step panic d e → Reach panic c e

-- In a rightly counted cluster whose counters have room: an update that reports a Job of a
-- counted, unreported start as started and not active at once, and that does not panic, leaves the
-- count of its key one above the active Jobs and the remaining unreported starts.
pub missed_start_leaks :
    (panic : Bool) (c : Cluster) (xs ys : List Job) (old new : Job) (s : Store) (key : String)
    (ps qs : List String)
    → HasRoom c
    → IsCounted c
    → c.jobs ≡ xs ++ old ∷ ys
    → get_key old ≡ some key
    → is_start old new ≡ true
    → is_active new ≡ false
    → c.pending ≡ ps ++ key ∷ qs
    → on_update panic c.store old new ≡ some s
    → get s.counter key
      ≡ pos (counted (record c { store = s; jobs = xs ++ new ∷ ys; pending = ps ++ qs }) key + 1)
missed_start_leaks panic c xs ys old new s key ps qs room inv at old_key started ended waits e =
    ground (
      arith,
      update-get panic c xs ys old new s at room inv e key,
      eq_refl key,
      inactive_of_start old new started,
      active_in-append key xs (new ∷ ys),
      ap (keys_in key) waits,
      keys_in-append key ps (key ∷ qs),
      keys_in-append key ps qs,
    )

check_and_add_fails :
    (s : Store) (rjc : JobConfig) (old : ℤ)
    → eqb_ℤ (get s.counter rjc.metadata.uid) old ≡ false
    → check_and_add s rjc old ≡ (s, false)
unfolding check_and_add Counter.check_and_add
check_and_add_fails s rjc old h = ground arith

-- After a CheckAndAdd with old count n below 2^62 that succeeded, another CheckAndAdd of the same
-- JobConfig with the same old count fails and leaves the store as it is.
pub check_and_add_once :
    (s : Store) (rjc : JobConfig) (n : ℕ)
    → n < limit
    → (check_and_add s rjc (pos n)).1 ≡ true
    → check_and_add (check_and_add s rjc (pos n)).0 rjc (pos n)
      ≡ ((check_and_add s rjc (pos n)).0, false)
check_and_add_once s rjc n small e =
    let uid = rjc.metadata.uid in
    check_and_add_fails (check_and_add s rjc (pos n)).0 rjc (pos n)
      (ground (arith, eq_refl uid, check_and_add-get s rjc uid n small e))

recover_one-get :
    (panic : Bool) (s s' : Store) (rj : Job) (n : String → ℕ)
    → ((j : String) → n j < limit)
    → ((j : String) → get s.counter j ≡ pos (n j))
    → recover_one panic s (get_key rj) (is_active rj) ≡ some s'
    → (k : String) → get s'.counter k ≡ pos (n k + one_if (is_key k (get_key rj) && is_active rj))
recover_one-get panic s s' rj n small g e k = elim (Option-cases (get_key rj)) [
  | inl unlabelled ↦ ground (arith, g k)
  | inr (key, labelled) ↦
      ground (arith, g k, g key, eq_iff key k, small key, increment-get panic s s' key k (n key))
]

recover_jobs-get :
    (panic : Bool) (s s' : Store) (jobs : List Job) (n : String → ℕ)
    → ((j : String) → n j + length jobs < limit)
    → ((j : String) → get s.counter j ≡ pos (n j))
    → recover_jobs panic s jobs ≡ some s'
    → (k : String) → get s'.counter k ≡ pos (n k + active_in k jobs)
unfolding recover_jobs
recover_jobs-get panic s s' [] n small g e k = ground (arith, g k)
recover_jobs-get panic s s' (rj ∷ jobs) n small g e k =
    elim (Option-cases (recover_one panic s (get_key rj) (is_active rj))) [
      | inl panics ↦ absurd (ground arith)
      | inr (s1, e1) ↦
          let one = λ (j : String). one_if (is_key j (get_key rj) && is_active rj) in
          recover_jobs-get panic s1 s' jobs (λ j. n j + one j)
            (λ j. omega (arith, small j, one_if-le (is_key j (get_key rj) && is_active rj)))
            (recover_one-get panic s s1 rj n (λ j. omega (arith, small j)) g e1) (ground arith) k
          ∙ ap pos (omega arith)
    ]

-- A recovery of a new store from fewer than 2^62 listed Jobs that ends well has, for every key,
-- the number of the listed Jobs with that key that are active as its count.
pub recover-counts :
    (panic : Bool) (s : Store) (jobs : List Job)
    → length jobs < limit
    → recover panic new_store true (some jobs) ≡ recovered s
    → (k : String) → get s.counter k ≡ pos (active_in k jobs)
unfolding recover new_store get lookup
recover-counts panic s jobs room e k = elim (Option-cases (recover_jobs panic new_store jobs)) [
  | inl panics ↦ absurd (ground arith)
  | inr (s1, e1) ↦
      let counts =
        recover_jobs-get panic new_store s1 jobs (λ j. 0) (λ j. omega arith) (λ j. refl) e1 k in
      ground (arith, counts)
]
