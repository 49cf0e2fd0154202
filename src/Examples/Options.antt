-- ===== src/Examples/Options.antt =====
-- The theorems on options, for a JobConfig with a Boolean and a selection.
use furiko.Prelude.{◌≡◌, refl, true, false, [], ◌∷◌, some, none, String}
use furiko.Meta.{StringMap, lookup, insert}
use furiko.Api.Options.{OptionType, BoolOptionFormat, JobOption, OptionSpec}
use furiko.FieldError.{FieldPath, child}
use furiko.Options.{Dates, evaluate_options, evaluate_option, ok, nil}
use furiko.Options.Defaults.{make_default_options, evaluate_option_default}
use furiko.Options.Agreement.{evaluate_options-default}
use furiko.Options.Admission.{
  HasUniqueNames, validate_job_option-evaluate, validate_option_spec-HasUniqueNames,
}
use furiko.Options.Validate.{validate_option_spec, validate_job_option}

-- Stand-ins for the date libraries, which read and write nothing.
abbrev dates : Dates
dates = record { parse_rfc3339 = λ s. none; format_as_moment = λ t format. none }

abbrev no_config : JobOption
no_config = record {
  option_type = OptionType.bool;
  name = "";
  label = "";
  required = false;
  bool = none;
  string = none;
  select = none;
  multi = none;
  date = none;
}

abbrev dry_run : JobOption
dry_run = record no_config {
  name = "dry_run";
  bool =
      some (record {
        default = true;
        format = BoolOptionFormat.yes_no;
        true_val = "";
        false_val = "";
      });
}

abbrev region : JobOption
region = record no_config {
  option_type = OptionType.select;
  name = "region";
  select = some (record { default = "eu"; values = "eu" ∷ "us" ∷ []; allow_custom = false });
}

abbrev option_spec : OptionSpec
option_spec = dry_run ∷ region ∷ []

abbrev path : FieldPath
path = child "optionValues" ∷ []

abbrev evaluated : StringMap
evaluated = ("option.dry_run", "yes") ∷ ("option.region", "eu") ∷ []

evaluate_options-default_example : make_default_options (some option_spec) ≡ some evaluated
unfolding evaluate_options lookup insert
evaluate_options-default_example = evaluate_options-default dates (some option_spec) path refl

validate_job_option-evaluate_example :
    (s : String) × (evaluate_option dates nil region path ≡ ok s)
    × (evaluate_option_default region ≡ some s)
unfolding validate_job_option
validate_job_option-evaluate_example = validate_job_option-evaluate dates region path path refl refl

validate_option_spec-HasUniqueNames_example : HasUniqueNames option_spec
unfolding validate_option_spec
validate_option_spec-HasUniqueNames_example =
    validate_option_spec-HasUniqueNames option_spec path refl
