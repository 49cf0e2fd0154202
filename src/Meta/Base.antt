-- ===== src/Meta/Base.antt =====
-- pkg/utils/meta/annotations.go and pkg/utils/meta/finalizers.go.
use furiko.Prelude.{
  Bool, not, ◌&&◌, List, [], ◌∷◌, ◌++◌, Option, none, some, String, str_eq, if◌then◌else◌, any,
  select, length, ◌==◌,
}
use text.Mathlib.Text.{starts_with}

abbrev pub StringMap : Type 0
StringMap = List (String × String)

-- `val, ok := m[key]`.
unfoldable pub lookup {ℓ} : {V : Type ℓ} → String → List (String × V) → Option V
lookup key [] = none
lookup key ((k, v) ∷ m) = if str_eq k key then some v else lookup key m

-- `m[key] = value`. With the nil check of `SetAnnotation` this is the whole of that function.
unfoldable pub insert {ℓ} : {V : Type ℓ} → String → V → List (String × V) → List (String × V)
insert key value [] = (key, value) ∷ []
insert key value ((k, v) ∷ m) =
    if str_eq k key then (key, value) ∷ m else (k, v) ∷ insert key value m

unfoldable pub filter_finalizers : List String → (String → Bool) → List String
filter_finalizers finalizers filter = select filter finalizers

unfoldable pub contains_finalizer : List String → String → Bool
contains_finalizer finalizers finalizer = any (λ f. str_eq f finalizer) finalizers

unfoldable pub remove_finalizer : List String → String → List String
remove_finalizer finalizers finalizer = select (λ f. not (str_eq f finalizer)) finalizers

-- The set `m` holds the first list, and does not grow in the loop.
unfoldable pub merge_finalizers : List String → List String → List String
unfolding contains_finalizer
merge_finalizers finalizers1 finalizers2 =
    finalizers1 ++ select (λ f. not (contains_finalizer finalizers1 f)) finalizers2

unfoldable pub is_final_finalizer : String → List String → String → Bool
unfolding filter_finalizers contains_finalizer
is_final_finalizer prefix finalizers finalizer =
    let filtered = filter_finalizers finalizers (λ f. starts_with f prefix) in
    length filtered == 1 && contains_finalizer filtered finalizer
