-- ===== src/Store/Cluster.antt =====
-- The store beside the cluster that it counts: the informer's Jobs, and the starts that the queue
-- controller made and the informer has not reported yet. A step is one event; the events that are
-- here interleave in any order. A start is its CheckAndAdd; one that fails is taken back by a later
-- event, its Delete. A Job without the label of a JobConfig is started without the store. Not among
-- the events are a label that changes, a Job that is created active, and a start that is reported as
-- already ended.
use furiko.Prelude.{
  ℕ, ◌+◌, ◌<◌, ◌≤◌, pos, ◌≡◌, Bool, true, false, not, ◌&&◌, ◌||◌, List, [], ◌∷◌, ◌++◌, some, none,
  String, str_eq, eq_iff, eq_refl, arith, length, inl, inr, Option-cases,
}
use furiko.Api.Job.{Job}
use furiko.Api.JobConfig.{JobConfig}
use furiko.JobUtil.Queries.{is_started, is_active}
use furiko.Store.{Store, get_key, check_and_add, delete, on_update, on_delete}
use furiko.Store.Counter.{get}
use furiko.Store.Accounting.{
  limit, one_if, is_key, active_in, increment-get, decrement-get, check_and_add-get,
}

pub record Cluster : Type 0 where
  pub store : Store
  pub jobs : List Job
  pub pending : List String

abbrev pub keys_in : String → List String → ℕ
keys_in k [] = 0
keys_in k (key ∷ keys) = one_if (str_eq key k) + keys_in k keys

-- The transition from not started to started, which CheckAndAdd has already counted.
abbrev pub is_start : Job → Job → Bool
is_start old new = not (is_started old) && is_started new

pub data Step (panic : Bool) : Cluster → Cluster → Type 0 where
  start :
      (c : Cluster) (rjc : JobConfig) (n : ℕ)
      → (check_and_add c.store rjc (pos n)).1 ≡ true
      → n < limit
      → Step panic c (record c {
        store = (check_and_add c.store rjc (pos n)).0;
        pending = rjc.metadata.uid ∷ c.pending;
      })
  start_undone :
      (c : Cluster) (rjc : JobConfig) (s : Store) (ps qs : List String)
      → c.pending ≡ ps ++ rjc.metadata.uid ∷ qs
      → delete panic c.store rjc ≡ some s
      → Step panic c (record c { store = s; pending = ps ++ qs })
  create :
      (c : Cluster) (rj : Job)
      → is_active rj ≡ false
      → Step panic c (record c { jobs = rj ∷ c.jobs })
  update :
      (c : Cluster) (xs ys : List Job) (old new : Job) (s : Store)
      → c.jobs ≡ xs ++ old ∷ ys
      → get_key new ≡ get_key old
      → is_start old new ≡ false
      → on_update panic c.store old new ≡ some s
      → Step panic c (record c { store = s; jobs = xs ++ new ∷ ys })
  update_started :
      (c : Cluster) (xs ys : List Job) (old new : Job) (s : Store) (key : String)
      (ps qs : List String)
      → c.jobs ≡ xs ++ old ∷ ys
      → get_key old ≡ some key
      → get_key new ≡ some key
      → is_start old new ≡ true
      → is_active new ≡ true
      → c.pending ≡ ps ++ key ∷ qs
      → on_update panic c.store old new ≡ some s
      → Step panic c (record c { store = s; jobs = xs ++ new ∷ ys; pending = ps ++ qs })
  start_independent :
      (c : Cluster) (xs ys : List Job) (old new : Job) (s : Store)
      → c.jobs ≡ xs ++ old ∷ ys
      → get_key old ≡ none
      → get_key new ≡ none
      → on_update panic c.store old new ≡ some s
      → Step panic c (record c { store = s; jobs = xs ++ new ∷ ys })
  remove :
      (c : Cluster) (xs ys : List Job) (rj : Job) (s : Store)
      → c.jobs ≡ xs ++ rj ∷ ys
      → on_delete panic c.store rj ≡ some s
      → Step panic c (record c { store = s; jobs = xs ++ ys })

-- For each key: the active Jobs that the informer knows, and the starts that it does not.
abbrev pub counted : Cluster → String → ℕ
counted c k = active_in k c.jobs + keys_in k c.pending

abbrev pub IsCounted : Cluster → Type 0
IsCounted c = (k : String) → get c.store.counter k ≡ pos (counted c k)

-- The bound that keeps the `int64` counters from wrapping around.
abbrev pub HasRoom : Cluster → Type 0
HasRoom c = length c.jobs + length c.pending < limit

pub active_in-append :
    (k : String) (xs ys : List Job) → active_in k (xs ++ ys) ≡ active_in k xs + active_in k ys
active_in-append k [] ys = omega arith
active_in-append k (x ∷ xs) ys = omega (arith, active_in-append k xs ys)

pub keys_in-append :
    (k : String) (xs ys : List String) → keys_in k (xs ++ ys) ≡ keys_in k xs + keys_in k ys
keys_in-append k [] ys = omega arith
keys_in-append k (x ∷ xs) ys = omega (arith, keys_in-append k xs ys)

pub one_if-le : (b : Bool) → one_if b ≤ 1
one_if-le true = omega arith
one_if-le false = omega arith

pub active_in-le : (k : String) (jobs : List Job) → active_in k jobs ≤ length jobs
active_in-le k [] = omega arith
active_in-le k (rj ∷ jobs) =
    omega (arith, active_in-le k jobs, one_if-le (is_key k (get_key rj) && is_active rj))

pub keys_in-le : (k : String) (keys : List String) → keys_in k keys ≤ length keys
keys_in-le k [] = omega arith
keys_in-le k (key ∷ keys) = omega (arith, keys_in-le k keys, one_if-le (str_eq key k))

pub start-IsCounted :
    (c : Cluster) (rjc : JobConfig) (n : ℕ)
    → IsCounted c
    → (check_and_add c.store rjc (pos n)).1 ≡ true
    → n < limit
    → (k : String)
    → get (check_and_add c.store rjc (pos n)).0.counter k
      ≡ pos (counted c k + one_if (str_eq rjc.metadata.uid k))
start-IsCounted c rjc n inv e small k = ground (
  arith,
  check_and_add-get c.store rjc k n small e,
  eq_iff rjc.metadata.uid k,
  inv k,
  inv rjc.metadata.uid,
)

-- What OnUpdate does to the count of every key.
pub on_update-get :
    (panic : Bool) (s s' : Store) (old new : Job) (n : String → ℕ)
    → ((j : String) → n j < limit)
    → ((j : String)
        → get s.counter j ≡ pos (one_if (is_key j (get_key old) && is_active old) + n j))
    → on_update panic s old new ≡ some s'
    → (k : String)
    → get s'.counter k
      ≡ pos (
          one_if
            (is_key k (get_key old) && is_active new && (is_active old || not (is_start old new)))
          + n k)
unfolding on_update
on_update-get panic s s' old new n small g e k = elim (Option-cases (get_key old)) [
  | inl unlabelled ↦ ground (arith, g k)
  | inr (key, labelled) ↦ ground (
    arith,
    g k,
    g key,
    eq_iff key k,
    eq_refl key,
    small key,
    decrement-get panic s s' key k (n key),
    increment-get panic s s' key k (n key),
  )
]

pub on_delete-get :
    (panic : Bool) (s s' : Store) (rj : Job) (n : String → ℕ)
    → ((j : String) → n j < limit)
    → ((j : String) → get s.counter j ≡ pos (one_if (is_key j (get_key rj) && is_active rj) + n j))
    → on_delete panic s rj ≡ some s'
    → (k : String) → get s'.counter k ≡ pos (n k)
unfolding on_delete
on_delete-get panic s s' rj n small g e k = elim (Option-cases (get_key rj)) [
  | inl unlabelled ↦ ground (arith, g k)
  | inr (key, labelled) ↦ ground (
    arith,
    g k,
    g key,
    eq_iff key k,
    eq_refl key,
    small key,
    decrement-get panic s s' key k (n key),
  )
]
