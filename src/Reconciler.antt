-- ===== src/Reconciler.antt =====
-- pkg/runtime/reconciler/controller.go: a worker takes a key from the work queue, syncs it, and puts it
-- back after an error, a limited number of times. Of the rate-limited queue of client-go the model has
-- what the code uses: the number of times that a key was put back since it was last forgotten. The
-- waiting times, the metrics and the logs but the one on exceeded retries are left out.
pub mod Retries
use furiko.Prelude.{
  ◌≡◌, refl, ◌∙◌, arith, ℕ, zero, suc, ◌+◌, ◌≤◌, ℤ, pos, negsuc, Bool, true, false, not, ◌&&◌, ◌||◌,
  List, [], ◌∷◌, Option, none, some, String, if◌then◌else◌, leb_ℤ, ltb_ℤ, eqb_ℤ, length, eq_refl,
  str_eq, eq_iff,
}
use furiko.Meta.{lookup, insert, lookup-insert}

-- The requeues of each key, and the keys that were put back and for which the log says that the
-- retries are exceeded, the last first.
pub record Queue : Type 0 where
  pub requeues : List (String × ℕ)
  pub added : List String
  pub exceeded : List String

abbrev count : Option ℕ → ℕ
count none = 0
count (some n) = n

unfoldable pub num_requeues : Queue → String → ℕ
unfolding lookup
num_requeues q key = count (lookup key q.requeues)

unfoldable pub add_rate_limited : Queue → String → Queue
unfolding num_requeues insert
add_rate_limited q key = record q {
  requeues = insert key (suc (num_requeues q key)) q.requeues;
  added = key ∷ q.added;
}

unfoldable pub forget : Queue → String → Queue
unfolding insert
forget q key = record q { requeues = insert key 0 q.requeues }

-- The handler: its limit of requeues, how a key is split, and whether the sync of an object ends
-- without an error, given the number of requeues.
pub record Handler : Type 0 where
  pub max_requeues : ℤ
  pub split : String → Option (String × String)
  pub sync_one : String → String → ℕ → Bool

-- MaxRequeues of each of the program's reconcilers.
abbrev pub unlimited : ℤ
unlimited = negsuc 0

module _ (handler : Handler) where
  abbrev log_exceeded : String → Queue → Queue
  log_exceeded key q =
      if eqb_ℤ (pos (num_requeues q key)) handler.max_requeues
      then record q { exceeded = key ∷ q.exceeded }
      else q

  abbrev put_back : String → Queue → Queue
  put_back key q =
      if leb_ℤ handler.max_requeues (pos 0) || ltb_ℤ (pos (num_requeues q key)) handler.max_requeues
      then add_rate_limited q key
      else q

  abbrev sync_split : String → Queue → String × String → Queue × Bool
  sync_split key q (namespace, name) =
      if handler.sync_one namespace name (num_requeues q key)
      then (q, true)
      else (log_exceeded key (put_back key q), false)

  -- The answer tells whether there was no error.
  unfoldable pub sync_item : Queue → String → Queue × Bool
  unfolding num_requeues add_rate_limited
  sync_item q key = elim (handler.split key) [
    | none ↦ (q, false)
    | some object ↦ sync_split key q object
  ]

  abbrev finish_work : String → Queue × Bool → Queue
  finish_work key (q, true) = forget q key
  finish_work key (q, false) = q

  -- One key that Get answered.
  unfoldable pub work : Queue → String → Queue
  unfolding sync_item forget
  work q key = finish_work key (sync_item q key)

  -- A key that is worked on a number of times.
  abbrev pub work_times : ℕ → Queue → String → Queue
  work_times zero q key = q
  work_times (suc n) q key = work_times n (work q key) key
