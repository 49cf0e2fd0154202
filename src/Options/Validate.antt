-- ===== src/Options/Validate.antt =====
-- pkg/core/options/options.go and validation.go: the checks of an OptionSpec.
use Prim.Native.Char.{code}
use furiko.Prelude.{
  ℕ, suc, Bool, true, false, not, ◌&&◌, ◌||◌, List, [], ◌∷◌, ◌++◌, Option, none, some, String,
  if◌then◌else◌, is_empty, is_none, leb, ◌==◌,
}
use furiko.Api.Options.{
  OptionType, BoolOptionFormat, BoolOptionConfig, SelectOptionConfig, MultiOptionConfig, JobOption,
  OptionSpec, is_valid_type, is_valid_format, zero_bool, zero_select, zero_multi, or_zero,
}
use furiko.FieldError.{
  FieldPath, child, index, invalid, required, not_supported, forbidden, ErrorList, error_at, unless,
}
use furiko.Options.{contains_string}

abbrev is_empty_list : List String → Bool
is_empty_list [] = true
is_empty_list (x ∷ xs) = false

-- ZeroForNonConfig: the fields that are no pointers are reset.
unfoldable pub zero_for_non_config : JobOption → JobOption
zero_for_non_config option = record option {
  option_type = OptionType.other "";
  name = "";
  label = "";
  required = false;
}

abbrev is_empty_type : OptionType → Bool
is_empty_type (OptionType.other s) = is_empty s
is_empty_type _ = false

-- `reflect.DeepEqual(execution.Option{}, option)`.
unfoldable pub is_zero_option : JobOption → Bool
is_zero_option option =
    is_empty_type option.option_type
    && is_empty option.name
    && is_empty option.label
    && not option.required
    && is_none option.bool
    && is_none option.string
    && is_none option.select
    && is_none option.multi
    && is_none option.date

-- The characters of the regular expression ^[a-zA-Z_0-9.-]+$.
abbrev is_name_char : ℕ → Bool
is_name_char c =
    (leb b'a' c && leb c b'z')
    || (leb b'A' c && leb c b'Z')
    || (leb b'0' c && leb c b'9')
    || c == b'_'
    || c == b'.'
    || c == b'-'

unfoldable pub are_name_chars : String → Bool
are_name_chars String.[] = true
are_name_chars (String.◌∷◌ c s) = is_name_char (code c) && are_name_chars s

unfoldable pub validate_job_option_name : String → FieldPath → ErrorList
unfolding are_name_chars
validate_job_option_name name path =
    unless (not (is_empty name) && are_name_chars name) invalid path

unfoldable pub validate_job_option_type : OptionType → FieldPath → ErrorList
unfolding is_valid_type
validate_job_option_type option_type path =
    unless (not (is_empty_type option_type)) required path
    ++ unless (is_valid_type option_type) not_supported path

abbrev is_empty_format : BoolOptionFormat → Bool
is_empty_format (BoolOptionFormat.other s) = is_empty s
is_empty_format _ = false

unfoldable pub validate_bool_option_config : Option BoolOptionConfig → FieldPath → ErrorList
unfolding is_valid_format
validate_bool_option_config config path =
    let cfg = or_zero zero_bool config in
    if is_empty_format cfg.format
    then error_at required (child "format" ∷ path) ∷ []
    else unless (is_valid_format cfg.format) not_supported (child "format" ∷ path)

unfoldable pub validate_job_option_bool : JobOption → FieldPath → ErrorList
unfolding zero_for_non_config is_zero_option validate_bool_option_config
validate_job_option_bool option path =
    let sanitized = record (zero_for_non_config option) { bool = none } in
    unless (is_zero_option sanitized) forbidden path
    ++ (validate_bool_option_config option.bool (child "bool" ∷ path)
        ++ unless (not option.required) forbidden (child "required" ∷ path))

unfoldable pub validate_job_option_string : JobOption → FieldPath → ErrorList
unfolding zero_for_non_config is_zero_option
validate_job_option_string option path =
    unless (is_zero_option (record (zero_for_non_config option) { string = none })) forbidden path

-- The loops over the values, from the index `i` on.
unfoldable pub check_not_empty : FieldPath → ℕ → List String → ErrorList
check_not_empty path i [] = []
check_not_empty path i (value ∷ values) =
    unless (not (is_empty value)) required (index i ∷ path) ++ check_not_empty path (suc i) values

unfoldable pub check_supported : List String → FieldPath → ℕ → List String → ErrorList
check_supported supported path i [] = []
check_supported supported path i (def ∷ defs) =
    unless (contains_string supported def) not_supported (index i ∷ path)
    ++ check_supported supported path (suc i) defs

unfoldable pub validate_select_option_config : Option SelectOptionConfig → FieldPath → ErrorList
unfolding check_not_empty
validate_select_option_config config path =
    let cfg = or_zero zero_select config in
    unless (not (is_empty_list cfg.values)) required (child "values" ∷ path)
    ++ (unless (is_empty cfg.default || contains_string cfg.values cfg.default) not_supported
          (child "default" ∷ path)
        ++ check_not_empty (child "values" ∷ path) 0 cfg.values)

unfoldable pub validate_job_option_select : JobOption → FieldPath → ErrorList
unfolding zero_for_non_config is_zero_option validate_select_option_config
validate_job_option_select option path =
    unless (is_zero_option (record (zero_for_non_config option) { select = none })) forbidden path
    ++ validate_select_option_config option.select (child "select" ∷ path)

unfoldable pub validate_multi_option_config : Option MultiOptionConfig → FieldPath → ErrorList
unfolding check_not_empty check_supported
validate_multi_option_config config path =
    let cfg = or_zero zero_multi config in
    unless (not (is_empty_list cfg.values)) required (child "values" ∷ path)
    ++ (check_supported cfg.values (child "default" ∷ path) 0 cfg.default
        ++ (check_not_empty (child "values" ∷ path) 0 cfg.values
            ++ check_not_empty (child "default" ∷ path) 0 cfg.default))

unfoldable pub validate_job_option_multi : JobOption → FieldPath → ErrorList
unfolding zero_for_non_config is_zero_option validate_multi_option_config
validate_job_option_multi option path =
    unless (is_zero_option (record (zero_for_non_config option) { multi = none })) forbidden path
    ++ validate_multi_option_config option.multi (child "multi" ∷ path)

unfoldable pub validate_job_option_date : JobOption → FieldPath → ErrorList
unfolding zero_for_non_config is_zero_option
validate_job_option_date option path =
    unless (is_zero_option (record (zero_for_non_config option) { date = none })) forbidden path

abbrev validate_by_type : OptionType → JobOption → FieldPath → ErrorList
validate_by_type OptionType.bool option path = validate_job_option_bool option path
validate_by_type OptionType.string option path = validate_job_option_string option path
validate_by_type OptionType.select option path = validate_job_option_select option path
validate_by_type OptionType.multi option path = validate_job_option_multi option path
validate_by_type OptionType.date option path = validate_job_option_date option path
validate_by_type (OptionType.other s) option path = []

unfoldable pub validate_job_option : JobOption → FieldPath → ErrorList
unfolding validate_job_option_type validate_job_option_name validate_job_option_bool
    validate_job_option_string validate_job_option_select validate_job_option_multi
    validate_job_option_date
validate_job_option option path =
    validate_job_option_type option.option_type path
    ++ (validate_job_option_name option.name path
        ++ validate_by_type option.option_type option path)

-- The loop of ValidateOptionSpec, with the names seen so far.
unfoldable pub validate_options : List String → ℕ → FieldPath → List JobOption → ErrorList
unfolding validate_job_option
validate_options names i path [] = []
validate_options names i path (option ∷ rest) =
    let at = index i ∷ child "options" ∷ path in
    if contains_string names option.name
    then error_at forbidden at ∷ validate_options names (suc i) path rest
    else validate_job_option option at ++ validate_options (option.name ∷ names) (suc i) path rest

unfoldable pub validate_option_spec : Option OptionSpec → FieldPath → ErrorList
unfolding validate_options
validate_option_spec none path = []
validate_option_spec (some spec) path = validate_options [] 0 path spec
