-- ===== src/Api/Options.antt =====
-- The options of apis/execution/v1alpha1/jobconfig_types.go.
use furiko.Prelude.{Bool, true, false, List, [], Option, some, none, String}

pub data OptionType : Type 0 where
  bool string select multi date : OptionType
  other : String → OptionType

-- OptionType.IsValid: membership in OptionTypesAll.
unfoldable pub is_valid_type : OptionType → Bool
is_valid_type (OptionType.other s) = false
is_valid_type _ = true

pub data BoolOptionFormat : Type 0 where
  true_false one_zero yes_no custom : BoolOptionFormat
  other : String → BoolOptionFormat

-- BoolOptionFormat.IsValid.
unfoldable pub is_valid_format : BoolOptionFormat → Bool
is_valid_format (BoolOptionFormat.other s) = false
is_valid_format _ = true

abbrev choose : Bool → String → String → String
choose true t f = t
choose false t f = f

-- BoolOptionFormat.Format, with `none` for its error.
unfoldable pub format : BoolOptionFormat → Bool → Option String
format BoolOptionFormat.true_false val = some (choose val "true" "false")
format BoolOptionFormat.one_zero val = some (choose val "1" "0")
format BoolOptionFormat.yes_no val = some (choose val "yes" "no")
format BoolOptionFormat.custom val = none
format (BoolOptionFormat.other s) val = none

pub record BoolOptionConfig : Type 0 where
  pub default : Bool
  pub format : BoolOptionFormat
  pub true_val : String
  pub false_val : String

abbrev format_with : BoolOptionFormat → BoolOptionConfig → Bool → Option String
format_with BoolOptionFormat.custom c value = some (choose value c.true_val c.false_val)
format_with f c value = format f value

-- BoolOptionConfig.FormatValue.
unfoldable pub format_value : BoolOptionConfig → Bool → Option String
unfolding format
format_value c value = format_with c.format c value

pub record StringOptionConfig : Type 0 where
  pub default : String
  pub trim_spaces : Bool

pub record SelectOptionConfig : Type 0 where
  pub default : String
  pub values : List String
  pub allow_custom : Bool

pub record MultiOptionConfig : Type 0 where
  pub default : List String
  pub delimiter : String
  pub values : List String
  pub allow_custom : Bool

pub record DateOptionConfig : Type 0 where
  pub format : String

-- Go's `Option`.
pub record JobOption : Type 0 where
  pub option_type : OptionType
  pub name : String
  pub label : String
  pub required : Bool
  pub bool : Option BoolOptionConfig
  pub string : Option StringOptionConfig
  pub select : Option SelectOptionConfig
  pub multi : Option MultiOptionConfig
  pub date : Option DateOptionConfig

abbrev pub OptionSpec : Type 0
OptionSpec = List JobOption

-- The zero values, which stand for a nil pointer.
abbrev pub zero_bool : BoolOptionConfig
zero_bool = record {
  default = false;
  format = BoolOptionFormat.other "";
  true_val = "";
  false_val = "";
}

abbrev pub zero_string : StringOptionConfig
zero_string = record { default = ""; trim_spaces = false }

abbrev pub zero_select : SelectOptionConfig
zero_select = record { default = ""; values = []; allow_custom = false }

abbrev pub zero_multi : MultiOptionConfig
zero_multi = record { default = []; delimiter = ""; values = []; allow_custom = false }

abbrev pub zero_date : DateOptionConfig
zero_date = record { format = "" }

abbrev pub or_zero {ℓ} : {A : Type ℓ} → A → Option A → A
or_zero zero_value none = zero_value
or_zero zero_value (some cfg) = cfg
