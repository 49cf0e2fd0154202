-- ===== src/Options.antt =====
-- pkg/core/options: the options of a JobConfig, how their values are evaluated, checked and defaulted.
pub mod Validate
pub mod Defaults
pub mod Agreement
pub mod Admission
pub mod Variables
use furiko.Prelude.{
  ◌≡◌, Bool, true, false, not, ◌&&◌, ◌||◌, List, [], ◌∷◌, Option, none, some, String, str_eq,
  if◌then◌else◌, any, is_empty, trim_space, join, str_append, ◌++◌,
}
use furiko.Ktime.{Time, is_zero_ptr, unwrap_meta_v1_time}
use furiko.Meta.{StringMap, lookup, insert}
use furiko.Api.Options.{
  OptionType, BoolOptionConfig, StringOptionConfig, SelectOptionConfig, MultiOptionConfig,
  DateOptionConfig, JobOption, OptionSpec, format_value, zero_bool, zero_string, zero_select,
  zero_multi, zero_date, or_zero,
}
use furiko.FieldError.{
  FieldPath, key, invalid, required, not_supported, FieldError, ErrorList, error_at,
}

-- An element of a Go []interface{}.
pub data Item : Type 0 where
  text_item : String → Item
  other_item : Item

-- The values of a Go interface{} that the code tells apart. `time` is a *time.Time or a time.Time.
pub data Value : Type 0 where
  nil : Value
  bool : Bool → Value
  text : String → Value
  strings : List String → Value
  items : List Item → Value
  time : Option Time → Value
  other : Value

pub data Evaluated : Type 0 where
  ok : String → Evaluated
  error : FieldError → Evaluated

-- The time parser of Go and the formatter of goment, which may fail.
pub record Dates : Type 0 where
  pub parse_rfc3339 : String → Option Time
  pub format_as_moment : Time → String → Option String

abbrev pub or_default : Value → Value → Value
or_default d nil = d
or_default d v = v

abbrev pub contains_string : List String → String → Bool
contains_string strs s = any (λ str. str_eq str s) strs

-- MakeOptionVariableName.
unfoldable pub make_option_variable_name : JobOption → String
make_option_variable_name option = str_append "option." option.name

abbrev ok_or_invalid : FieldPath → Option String → Evaluated
ok_or_invalid path none = error (error_at invalid path)
ok_or_invalid path (some s) = ok s

abbrev format_bool_value : BoolOptionConfig → FieldPath → Value → Evaluated
format_bool_value cfg path (bool v) = ok_or_invalid path (format_value cfg v)
format_bool_value cfg path _ = error (error_at invalid path)

unfoldable pub evaluate_job_option_bool : Value → Option BoolOptionConfig → FieldPath → Evaluated
unfolding format_value
evaluate_job_option_bool value config path =
    let cfg = or_zero zero_bool config in
    format_bool_value cfg path (or_default (bool cfg.default) value)

abbrev check_text : StringOptionConfig → Bool → FieldPath → Value → Evaluated
check_text cfg must path (text s) =
    let v = if cfg.trim_spaces then trim_space s else s in
    if must && is_empty v then error (error_at required path) else ok v
check_text cfg must path _ = error (error_at invalid path)

unfoldable pub evaluate_job_option_string :
    Value → JobOption → Option StringOptionConfig → FieldPath → Evaluated
evaluate_job_option_string value option config path =
    let cfg = or_zero zero_string config in
    check_text cfg option.required path (or_default (text cfg.default) value)

abbrev check_selection : SelectOptionConfig → Bool → FieldPath → Value → Evaluated
check_selection cfg must path (text v) =
    if not (is_empty v) && not cfg.allow_custom && not (contains_string cfg.values v)
    then error (error_at not_supported path)
    else if is_empty v && must
    then error (error_at required path)
    else ok v
check_selection cfg must path _ = error (error_at invalid path)

unfoldable pub evaluate_job_option_select :
    Value → JobOption → Option SelectOptionConfig → FieldPath → Evaluated
evaluate_job_option_select value option config path =
    let cfg = or_zero zero_select config in
    check_selection cfg option.required path (or_default (text cfg.default) value)

-- The conversion of a []interface{} to a []string.
abbrev pub add_item : Item → Option (List String) → Option (List String)
add_item (text_item s) (some rest) = some (s ∷ rest)
add_item _ _ = none

unfoldable pub to_strings : List Item → Option (List String)
to_strings [] = some []
to_strings (item ∷ rest) = add_item item (to_strings rest)

-- `none` where the value is no list of texts.
unfoldable pub strings_of : Value → Option (List String)
unfolding to_strings
strings_of nil = some []
strings_of (strings v) = some v
strings_of (items vi) = to_strings vi
strings_of _ = none

-- The first value that is empty or not among the supported ones.
unfoldable pub check_values : MultiOptionConfig → FieldPath → List String → Option FieldError
check_values cfg path [] = none
check_values cfg path (val ∷ vals) =
    let rest = check_values cfg path vals in
    if not cfg.allow_custom && not (contains_string cfg.values val)
    then some (error_at not_supported path)
    else if is_empty val
    then some (error_at required path)
    else rest

abbrev or_defaults : List String → List String → List String
or_defaults defaults [] = defaults
or_defaults defaults (v ∷ vs) = v ∷ vs

abbrev join_checked : String → List String → Option FieldError → Evaluated
join_checked delimiter v none = ok (join v delimiter)
join_checked delimiter v (some e) = error e

abbrev join_values : MultiOptionConfig → Bool → FieldPath → List String → Evaluated
join_values cfg must path [] = if must then error (error_at required path) else ok ""
join_values cfg must path (v ∷ vs) =
    join_checked cfg.delimiter (v ∷ vs) (check_values cfg path (v ∷ vs))

abbrev evaluate_strings : MultiOptionConfig → Bool → FieldPath → Option (List String) → Evaluated
evaluate_strings cfg must path none = error (error_at invalid path)
evaluate_strings cfg must path (some v) = join_values cfg must path (or_defaults cfg.default v)

unfoldable pub evaluate_job_option_multi :
    Value → JobOption → Option MultiOptionConfig → FieldPath → Evaluated
unfolding check_values strings_of join
evaluate_job_option_multi value option config path =
    evaluate_strings (or_zero zero_multi config) option.required path (strings_of value)

module _ (dates : Dates) where
  -- The instant of a value; the zero time is `some none`, an error is `none`.
  abbrev parse_text : String → Option (Option Time)
  parse_text s =
      if is_empty s
      then some none
      else elim (dates.parse_rfc3339 s) [ none ↦ none | some t ↦ some (some t) ]

  abbrev time_of : Value → Option (Option Time)
  time_of nil = some none
  time_of (time t) = some t
  time_of (text s) = parse_text s
  time_of _ = none

  abbrev format_time : DateOptionConfig → Bool → FieldPath → Option (Option Time) → Evaluated
  format_time cfg must path none = error (error_at invalid path)
  format_time cfg must path (some t) =
      if is_zero_ptr t
      then (if must then error (error_at required path) else ok "")
      else ok_or_invalid path (dates.format_as_moment (unwrap_meta_v1_time t) cfg.format)

  unfoldable pub evaluate_job_option_date :
      Value → JobOption → Option DateOptionConfig → FieldPath → Evaluated
  evaluate_job_option_date value option config path =
      format_time (or_zero zero_date config) option.required path (time_of value)

  abbrev evaluate_by_type : OptionType → Value → JobOption → FieldPath → Evaluated
  evaluate_by_type OptionType.bool value option path =
      evaluate_job_option_bool value option.bool path
  evaluate_by_type OptionType.string value option path =
      evaluate_job_option_string value option option.string path
  evaluate_by_type OptionType.select value option path =
      evaluate_job_option_select value option option.select path
  evaluate_by_type OptionType.multi value option path =
      evaluate_job_option_multi value option option.multi path
  evaluate_by_type OptionType.date value option path =
      evaluate_job_option_date value option option.date path
  evaluate_by_type (OptionType.other s) value option path = error (error_at invalid path)

  unfoldable pub evaluate_option : Value → JobOption → FieldPath → Evaluated
  unfolding evaluate_job_option_bool evaluate_job_option_string evaluate_job_option_select
      evaluate_job_option_multi evaluate_job_option_date
  evaluate_option value option path = evaluate_by_type option.option_type value option path

  abbrev pub value_of : Option Value → Value
  value_of none = nil
  value_of (some v) = v

  abbrev pub record_evaluated : String → Evaluated → StringMap × ErrorList → StringMap × ErrorList
  record_evaluated name (ok s) (eval, errs) = (insert name s eval, errs)
  record_evaluated name (error e) (eval, errs) = (eval, errs ++ e ∷ [])

  -- The loop of EvaluateOptions, over the map and the errors so far.
  unfoldable pub evaluate_each :
      List (String × Value)
      → FieldPath
      → StringMap × ErrorList
      → List JobOption
      → StringMap × ErrorList
  unfolding evaluate_option make_option_variable_name
  evaluate_each options path acc [] = acc
  evaluate_each options path acc (option ∷ rest) =
      evaluate_each options path
        (record_evaluated (make_option_variable_name option)
          (evaluate_option (value_of (lookup option.name options)) option (key option.name ∷ path))
          acc)
        rest

  unfoldable pub evaluate_options :
      List (String × Value) → Option OptionSpec → FieldPath → StringMap × ErrorList
  unfolding evaluate_each
  evaluate_options options none path = ([], [])
  evaluate_options options (some spec) path = evaluate_each options path ([], []) spec
