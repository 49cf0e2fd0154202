-- ===== src/Options/Defaults.antt =====
-- pkg/core/options/default.go and the defaults of options.go.
use furiko.Prelude.{
  Bool, false, List, [], ◌∷◌, map, Option, none, some, String, if◌then◌else◌, is_empty, trim_space,
  join,
}
use furiko.Meta.{StringMap, insert}
use furiko.Api.Options.{
  OptionType, BoolOptionFormat, BoolOptionConfig, StringOptionConfig, SelectOptionConfig,
  MultiOptionConfig, JobOption, OptionSpec, format_value, zero_bool, zero_string, zero_select,
  zero_multi, or_zero,
}
use furiko.Options.{make_option_variable_name}

unfoldable pub evaluate_job_option_default_bool : Option BoolOptionConfig → Option String
unfolding format_value
evaluate_job_option_default_bool config =
    let cfg = or_zero zero_bool config in format_value cfg cfg.default

unfoldable pub evaluate_job_option_default_string : Option StringOptionConfig → String
evaluate_job_option_default_string config =
    let cfg = or_zero zero_string config in
    if cfg.trim_spaces then trim_space cfg.default else cfg.default

unfoldable pub evaluate_job_option_default_select : Option SelectOptionConfig → String
evaluate_job_option_default_select config = (or_zero zero_select config).default

unfoldable pub evaluate_job_option_default_multi : Option MultiOptionConfig → String
unfolding join
evaluate_job_option_default_multi config =
    let cfg = or_zero zero_multi config in join cfg.default cfg.delimiter

abbrev default_by_type : OptionType → JobOption → Option String
default_by_type OptionType.bool option = evaluate_job_option_default_bool option.bool
default_by_type OptionType.string option = some (evaluate_job_option_default_string option.string)
default_by_type OptionType.select option = some (evaluate_job_option_default_select option.select)
default_by_type OptionType.multi option = some (evaluate_job_option_default_multi option.multi)
default_by_type OptionType.date option = some ""
default_by_type (OptionType.other s) option = none

unfoldable pub evaluate_option_default : JobOption → Option String
unfolding evaluate_job_option_default_bool evaluate_job_option_default_string
    evaluate_job_option_default_select evaluate_job_option_default_multi
evaluate_option_default option = default_by_type option.option_type option

-- The loop of MakeDefaultOptions, over the map so far; `none` is its error.
unfoldable pub make_defaults : StringMap → List JobOption → Option StringMap
unfolding evaluate_option_default make_option_variable_name
make_defaults opts [] = some opts
make_defaults opts (option ∷ rest) = elim (evaluate_option_default option) [
  | none ↦ none
  | some val ↦ make_defaults (insert (make_option_variable_name option) val opts) rest
]

unfoldable pub make_default_options : Option OptionSpec → Option StringMap
unfolding make_defaults
make_default_options none = some []
make_default_options (some spec) = make_defaults [] spec

abbrev is_unset_format : BoolOptionFormat → Bool
is_unset_format (BoolOptionFormat.other s) = is_empty s
is_unset_format _ = false

unfoldable pub default_job_option_bool : JobOption → JobOption
default_job_option_bool option =
    let cfg = or_zero zero_bool option.bool in
    record option {
      bool = some (
          if is_unset_format cfg.format
          then record cfg { format = BoolOptionFormat.true_false }
          else cfg);
    }

abbrev default_option_by_type : OptionType → JobOption → JobOption
default_option_by_type OptionType.bool option = default_job_option_bool option
default_option_by_type _ option = option

unfoldable pub default_job_option : JobOption → JobOption
unfolding default_job_option_bool
default_job_option option = default_option_by_type option.option_type option

unfoldable pub default_option_spec : OptionSpec → OptionSpec
unfolding default_job_option
default_option_spec spec = map default_job_option spec
