-- ===== src/Store/Accounting.antt =====
-- The active job store counts the active Jobs.
use furiko.Prelude.{
  ℕ, ◌+◌, ◌<◌, ◌^◌, ℤ, pos, negsuc, ◌≡◌, Bool, true, false, ◌&&◌, List, [], ◌∷◌, Option, none, some,
  String, str_eq, eqb_ℤ, eqb_ℤ→eq, wrap64, ◌+ℤ◌, if◌then◌else◌, arith, Bool-cases, inl, inr,
}
use furiko.Meta.{insert, lookup-insert}
use furiko.Api.Job.{Job}
use furiko.Api.JobConfig.{JobConfig}
use furiko.JobUtil.Queries.{is_active}
use furiko.Store.{Store, get_key, check_and_add, increment, decrement}
use furiko.Store.Counter
use furiko.Store.Counter.{get, add_int64}

-- Counts below this leave room for one more.
abbrev pub limit : ℕ
limit = 2 ^ 62

pub get-insert :
    (key j : String) (c : ℤ) (m : Counter.Counter)
    → get (insert key c m) j ≡ (if str_eq key j then c else get m j)
unfolding get
get-insert key j c m = ground (arith, lookup-insert key j c m)

pub add_one-exact : (n : ℕ) → n < limit → add_int64 (pos n) (pos 1) ≡ pos (n + 1)
unfolding add_int64 wrap64 ◌+ℤ◌
add_one-exact n h = ground arith

sub_one-exact : (n : ℕ) → n < limit → add_int64 (pos (n + 1)) (negsuc 0) ≡ pos n
unfolding add_int64 wrap64 ◌+ℤ◌
sub_one-exact n h = ground arith

-- 1 for true.
abbrev pub one_if : Bool → ℕ
one_if true = 1
one_if false = 0

abbrev pub is_key : String → Option String → Bool
is_key k none = false
is_key k (some key) = str_eq key k

-- How many active Jobs carry the key.
abbrev pub active_in : String → List Job → ℕ
active_in k [] = 0
active_in k (rj ∷ jobs) = one_if (is_key k (get_key rj) && is_active rj) + active_in k jobs

pub increment-get :
    (panic : Bool) (s s' : Store) (key k : String) (n : ℕ)
    → n < limit
    → get s.counter key ≡ pos n
    → increment panic s key ≡ some s'
    → get s'.counter k ≡ (if str_eq key k then pos (n + 1) else get s.counter k)
unfolding increment Counter.add
increment-get panic s s' key k n small g e = ground (
  arith,
  get-insert key k (add_int64 (get s.counter key) (pos 1)) s.counter,
  add_one-exact n small,
)

pub decrement-get :
    (panic : Bool) (s s' : Store) (key k : String) (n : ℕ)
    → n < limit
    → get s.counter key ≡ pos (n + 1)
    → decrement panic s key ≡ some s'
    → get s'.counter k ≡ (if str_eq key k then pos n else get s.counter k)
unfolding decrement Counter.remove
decrement-get panic s s' key k n small g e = ground (
  arith,
  get-insert key k (add_int64 (get s.counter key) (negsuc 0)) s.counter,
  sub_one-exact n small,
)

pub check_and_add-get :
    (s : Store) (rjc : JobConfig) (k : String) (n : ℕ)
    → n < limit
    → (check_and_add s rjc (pos n)).1 ≡ true
    → (get s.counter rjc.metadata.uid ≡ pos n)
      × (get (check_and_add s rjc (pos n)).0.counter k
          ≡ (if str_eq rjc.metadata.uid k then pos (n + 1) else get s.counter k))
unfolding check_and_add Counter.check_and_add
check_and_add-get s rjc k n small e =
    elim (Bool-cases (eqb_ℤ (get s.counter rjc.metadata.uid) (pos n))) [
      | inr differs ↦ absurd (ground arith)
      | inl same ↦ (
        eqb_ℤ→eq _ _ same,
        ground (
          arith,
          get-insert rjc.metadata.uid k (add_int64 (pos n) (pos 1)) s.counter,
          add_one-exact n small,
        ),
      )
    ]
