-- ===== src/Meta/Laws.antt =====
-- The laws of maps and of finalizer lists.
use furiko.Prelude.{
  ◌≡◌, refl, ◌∙◌, ◌||◌, select, any-append, not, ◌&&◌, List, [], ◌∷◌, some, String, str_eq, eq_iff,
  if◌then◌else◌, arith,
}
use furiko.Meta.Base.{lookup, insert, contains_finalizer, remove_finalizer, merge_finalizers}

pub lookup-insert {ℓ} :
    {V : Type ℓ} (key j : String) (value : V) (m : List (String × V))
    → lookup j (insert key value m) ≡ (if str_eq key j then some value else lookup j m)
unfolding lookup insert
lookup-insert key j value [] = refl
lookup-insert key j value ((i, w) ∷ m) =
    ground (arith, eq_iff key j, eq_iff i key, eq_iff i j, lookup-insert key j value m)

-- After removal the list holds the other finalizers as before, and not the removed one.
pub contains-remove_finalizer :
    (fs : List String) (f g : String)
    → contains_finalizer (remove_finalizer fs f) g ≡ (not (str_eq f g) && contains_finalizer fs g)
unfolding contains_finalizer remove_finalizer
contains-remove_finalizer [] f g = ground arith
contains-remove_finalizer (x ∷ fs) f g =
    ground (arith, eq_iff x f, eq_iff x g, eq_iff f g, contains-remove_finalizer fs f g)

contains-select_new :
    (fs gs : List String) (f : String)
    → (contains_finalizer fs f
        || contains_finalizer (select (λ g. not (contains_finalizer fs g)) gs) f)
      ≡ (contains_finalizer fs f || contains_finalizer gs f)
unfolding contains_finalizer
contains-select_new fs [] f = refl
contains-select_new fs (g ∷ gs) f = ground (arith, eq_iff g f, contains-select_new fs gs f)

-- The merged list holds what one of the two lists holds.
pub contains-merge_finalizers :
    (fs gs : List String) (f : String)
    → contains_finalizer (merge_finalizers fs gs) f
      ≡ (contains_finalizer fs f || contains_finalizer gs f)
unfolding merge_finalizers
contains-merge_finalizers fs gs f =
    any-append (λ g. str_eq g f) fs (select (λ g. not (contains_finalizer fs g)) gs)
    ∙ contains-select_new fs gs f
