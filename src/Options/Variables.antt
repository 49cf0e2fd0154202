-- ===== src/Options/Variables.antt =====
-- pkg/core/options/variables.go and parameters.go: variables in texts, and maps of their values.
-- The entries of a map are visited in the order of its list, for which Go takes any.
use Prim.Native.Char.{code}
use furiko.Prelude.{
  ℕ, zero, suc, ◌+◌, ◌-◌, Bool, true, false, ◌||◌, List, [], ◌∷◌, Option, none, some, String,
  if◌then◌else◌, ◌==◌, str_append, any, select, ◌≡◌, refl, arith, ap, ◌∙◌,
}
use furiko.Meta.{StringMap, lookup, insert, lookup-insert}

-- What comes after a prefix of a text.
abbrev strip_prefix : String → String → Option String
strip_prefix String.[] s = some s
strip_prefix (String.◌∷◌ c prefix) String.[] = none
strip_prefix (String.◌∷◌ c prefix) (String.◌∷◌ d s) =
    let rest = strip_prefix prefix s in if code c == code d then rest else none

abbrev has_prefix : String → String → Bool
has_prefix prefix s = elim (strip_prefix prefix s) [ none ↦ false | some rest ↦ true ]

abbrev count_chars : String → ℕ
count_chars String.[] = 0
count_chars (String.◌∷◌ c s) = suc (count_chars s)

-- Replaces each match, from the left and without overlaps. `matches` answers by how many characters
-- the match at the start of a text goes beyond its first; the first number is what is left to skip.
unfoldable replace_matches : (String → Option ℕ) → String → ℕ → String → String
replace_matches matches new skip String.[] = String.[]
replace_matches matches new (suc skip) (String.◌∷◌ c s) = replace_matches matches new skip s
replace_matches matches new zero (String.◌∷◌ c s) = elim (matches (String.◌∷◌ c s)) [
  | none ↦ String.◌∷◌ c (replace_matches matches new zero s)
  | some more ↦ str_append new (replace_matches matches new more s)
]

abbrev variable : String → String
variable name = String.◌∷◌ "$" (String.◌∷◌ "{" (str_append name "}"))

-- A literal text at the start of another; the callers give it at least three characters.
abbrev match_literal : String → String → Option ℕ
match_literal old s = if has_prefix old s then some (count_chars old - 1) else none

-- SubstituteVariables.
unfoldable pub substitute_variables : String → StringMap → String
unfolding replace_matches
substitute_variables target [] = target
substitute_variables target ((name, value) ∷ submap) =
    substitute_variables (replace_matches (match_literal (variable name)) value zero target) submap

-- How many characters stand before the first closing brace.
abbrev before_brace : String → Option ℕ
before_brace String.[] = none
before_brace (String.◌∷◌ c s) =
    let rest = before_brace s in
    if code c == b'}' then some 0 else elim rest [ none ↦ none | some n ↦ some (suc n) ]

abbrev match_end : ℕ → Option ℕ → Option ℕ
match_end n none = none
match_end n (some zero) = none
match_end n (some (suc k)) = some (n + suc k)

-- The regular expression \$\{prefix\.[^}]+\}, for a prefix without characters that it reads otherwise.
abbrev match_prefix : String → String → Option ℕ
match_prefix prefix s =
    let head = String.◌∷◌ "$" (String.◌∷◌ "{" (str_append prefix ".")) in
    elim (strip_prefix head s) [
      | none ↦ none
      | some rest ↦ match_end (count_chars head) (before_brace rest)
    ]

-- strings.TrimSuffix(prefix, ".").
abbrev trim_dot : String → String
trim_dot String.[] = String.[]
trim_dot (String.◌∷◌ c String.[]) = if code c == b'.' then String.[] else String.◌∷◌ c String.[]
trim_dot (String.◌∷◌ c (String.◌∷◌ d s)) = String.◌∷◌ c (trim_dot (String.◌∷◌ d s))

unfoldable pub substitute_empty_string_for_prefixes : String → List String → String
unfolding replace_matches
substitute_empty_string_for_prefixes target [] = target
substitute_empty_string_for_prefixes target (prefix ∷ prefixes) =
    substitute_empty_string_for_prefixes
      (replace_matches (match_prefix (trim_dot prefix)) "" zero target) prefixes

abbrev substitute_each : String → List StringMap → String
substitute_each target [] = target
substitute_each target (subs ∷ submaps) = substitute_each (substitute_variables target subs) submaps

unfoldable pub substitute_variable_maps : String → List StringMap → List String → String
unfolding substitute_variables substitute_empty_string_for_prefixes
substitute_variable_maps target submaps prefixes =
    substitute_empty_string_for_prefixes (substitute_each target submaps) prefixes

-- The inner loop of MergeSubstitutions; the entry at a key's first place is set last.
unfoldable pub insert_all {ℓ} :
    {V : Type ℓ} → List (String × V) → List (String × V) → List (String × V)
unfolding insert
insert_all [] m = m
insert_all ((k, v) ∷ params) m = insert k v (insert_all params m)

abbrev merge_into : StringMap → List StringMap → StringMap
merge_into m [] = m
merge_into m (params ∷ rest) = merge_into (insert_all params m) rest

unfoldable pub merge_substitutions : List StringMap → StringMap
unfolding insert_all
merge_substitutions param_maps = merge_into [] param_maps

unfoldable pub has_any_prefix : String → List String → Bool
has_any_prefix s prefixes = any (λ prefix. has_prefix prefix s) prefixes

unfoldable pub filter_parameters_with_prefixes : StringMap → List String → StringMap
unfolding has_any_prefix
filter_parameters_with_prefixes parameters prefixes =
    select (λ entry. has_any_prefix entry.0 prefixes) parameters

abbrev pub or_else {ℓ} : {A : Type ℓ} → Option A → Option A → Option A
or_else (some a) next = some a
or_else none next = next

pub lookup-insert_all {ℓ} :
    {V : Type ℓ} (key : String) (params m : List (String × V))
    → lookup key (insert_all params m) ≡ or_else (lookup key params) (lookup key m)
unfolding insert_all lookup
lookup-insert_all key [] m = refl
lookup-insert_all key ((k, v) ∷ params) m =
    ground (arith, lookup-insert k key v (insert_all params m), lookup-insert_all key params m)

-- The value of a key in the last map that has one.
abbrev pub last_value : String → List StringMap → Option String
last_value key [] = none
last_value key (params ∷ rest) = or_else (last_value key rest) (lookup key params)

lookup-merge_into :
    (key : String) (maps : List StringMap) (m : StringMap)
    → lookup key (merge_into m maps) ≡ or_else (last_value key maps) (lookup key m)
lookup-merge_into key [] m = refl
lookup-merge_into key (params ∷ rest) m =
    ground (arith, lookup-merge_into key rest (insert_all params m), lookup-insert_all key params m)

-- A key of the merged map has its value in the last of the maps that has the key.
pub lookup-merge_substitutions :
    (key : String) (maps : List StringMap)
    → lookup key (merge_substitutions maps) ≡ last_value key maps
unfolding merge_substitutions lookup
lookup-merge_substitutions key maps = ground (arith, lookup-merge_into key maps [])

abbrev pub has_dollar : String → Bool
has_dollar String.[] = false
has_dollar (String.◌∷◌ c s) = code c == b'$' || has_dollar s

-- A text at whose places nothing matches is kept.
replace_matches-none :
    (matches : String → Option ℕ) (new : String)
    → ((s : String) → has_dollar s ≡ false → matches s ≡ none)
    → (s : String) → has_dollar s ≡ false
    → replace_matches matches new zero s ≡ s
unfolding replace_matches
replace_matches-none matches new h String.[] plain = refl
replace_matches-none matches new h (String.◌∷◌ c s) plain =
    ground (arith, h (String.◌∷◌ c s) plain, replace_matches-none matches new h s)

strip_prefix-dollar :
    (rest s : String) → has_dollar s ≡ false → strip_prefix (String.◌∷◌ "$" rest) s ≡ none
strip_prefix-dollar rest String.[] plain = refl
strip_prefix-dollar rest (String.◌∷◌ c s) plain = ground arith

substitute_variables-plain :
    (target : String) (submap : StringMap)
    → has_dollar target ≡ false
    → substitute_variables target submap ≡ target
unfolding substitute_variables
substitute_variables-plain target [] plain = refl
substitute_variables-plain target ((name, value) ∷ submap) plain =
    let matches = match_literal (variable name) in
    let same =
      replace_matches-none matches value
        (λ s h. ground (arith, strip_prefix-dollar (String.◌∷◌ "{" (str_append name "}")) s h))
        target plain in
    ap (λ t. substitute_variables t submap) same ∙ substitute_variables-plain target submap plain

substitute_empty_string_for_prefixes-plain :
    (target : String) (prefixes : List String)
    → has_dollar target ≡ false
    → substitute_empty_string_for_prefixes target prefixes ≡ target
unfolding substitute_empty_string_for_prefixes
substitute_empty_string_for_prefixes-plain target [] plain = refl
substitute_empty_string_for_prefixes-plain target (prefix ∷ prefixes) plain =
    let head = str_append (trim_dot prefix) "." in
    let same =
      replace_matches-none (match_prefix (trim_dot prefix)) ""
        (λ s h. ground (arith, strip_prefix-dollar (String.◌∷◌ "{" head) s h)) target plain in
    ap (λ t. substitute_empty_string_for_prefixes t prefixes) same
    ∙ substitute_empty_string_for_prefixes-plain target prefixes plain

substitute_each-plain :
    (target : String) (submaps : List StringMap)
    → has_dollar target ≡ false
    → substitute_each target submaps ≡ target
substitute_each-plain target [] plain = refl
substitute_each-plain target (subs ∷ submaps) plain =
    ap (λ t. substitute_each t submaps) (substitute_variables-plain target subs plain)
    ∙ substitute_each-plain target submaps plain

-- A text without a dollar sign is left as it is, whatever the variables.
pub substitute_variable_maps-plain :
    (target : String) (submaps : List StringMap) (prefixes : List String)
    → has_dollar target ≡ false
    → substitute_variable_maps target submaps prefixes ≡ target
unfolding substitute_variable_maps
substitute_variable_maps-plain target submaps prefixes plain =
    ap (λ t. substitute_empty_string_for_prefixes t prefixes)
      (substitute_each-plain target submaps plain)
    ∙ substitute_empty_string_for_prefixes-plain target prefixes plain
