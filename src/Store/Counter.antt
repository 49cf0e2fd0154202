-- ===== src/Store/Counter.antt =====
-- pkg/utils/atomic/counter.go: counts by key. The nodes of the map are `int64` cells that are updated
-- atomically, so each operation is one step; a cell that was created holds 0 like one that was not.
use furiko.Prelude.{
  ℤ, pos, negsuc, Bool, true, false, List, [], Option, none, some, String, eqb_ℤ, wrap64, ◌+ℤ◌,
  if◌then◌else◌,
}
use furiko.Meta.{lookup, insert}

abbrev pub Counter : Type 0
Counter = List (String × ℤ)

abbrev pub new_counter : Counter
new_counter = []

abbrev node_count : Option ℤ → ℤ
node_count none = pos 0
node_count (some count) = count

unfoldable pub get : Counter → String → ℤ
get counter key = node_count (lookup key counter)

-- `atomic.AddInt64(&node.count, delta)`.
unfoldable pub add_int64 : ℤ → ℤ → ℤ
add_int64 count delta = wrap64 (count +ℤ delta)

-- The methods Add and Remove: the new counter, and the new count.
unfoldable pub add : Counter → String → Counter × ℤ
unfolding get add_int64
add counter key =
    let count = add_int64 (get counter key) (pos 1) in (insert key count counter, count)

unfoldable pub remove : Counter → String → Counter × ℤ
unfolding get add_int64
remove counter key =
    let count = add_int64 (get counter key) (negsuc 0) in (insert key count counter, count)

-- CompareAndSwap: the count changes only if it is the old one.
unfoldable pub check_and_add : Counter → String → ℤ → Counter × Bool
unfolding get add_int64
check_and_add counter key old =
    if eqb_ℤ (get counter key) old
    then (insert key (add_int64 old (pos 1)) counter, true)
    else (counter, false)

unfoldable pub clear : Counter → Counter
clear counter = new_counter
