-- ===== src/Options/Admission.antt =====
-- What an OptionSpec that passed the checks guarantees.
use furiko.Prelude.{
  ℕ, suc, ◌≡◌, refl, true, false, List, [], ◌∷◌, ◌++◌, Option, none, some, String, arith, str_eq,
  any, eq_iff, eq_refl,
}
use furiko.Api.Options.{OptionType, MultiOptionConfig, JobOption, OptionSpec, or_zero, zero_multi}
use furiko.FieldError.{append-nil, FieldPath, child, index}
use furiko.Options.{nil, ok, Dates, evaluate_option, check_values, contains_string}
use furiko.Options.Validate.{
  validate_job_option, check_supported, check_not_empty, validate_options, validate_option_spec,
  validate_multi_option_config,
}
use furiko.Options.Defaults.{evaluate_option_default}

check_values-none :
    (cfg : MultiOptionConfig) (path path1 path2 : FieldPath) (i j : ℕ) (defs : List String)
    → check_supported cfg.values path1 i defs ≡ []
    → check_not_empty path2 j defs ≡ []
    → check_values cfg path defs ≡ none
unfolding check_values check_supported check_not_empty
check_values-none cfg path path1 path2 i j [] supported filled = refl
check_values-none cfg path path1 path2 i j (def ∷ defs) supported filled =
    ground (arith, check_values-none cfg path path1 path2 (suc i) (suc j) defs)

-- What ValidateMultiOptionConfig says of the defaults.
multi-defaults :
    (config : Option MultiOptionConfig) (path at : FieldPath)
    → validate_multi_option_config config path ≡ []
    → check_values (or_zero zero_multi config) at (or_zero zero_multi config).default ≡ none
unfolding validate_multi_option_config
multi-defaults config path at e =
    let cfg = or_zero zero_multi config in
    ground (
      arith,
      append-nil (check_supported cfg.values (child "default" ∷ path) 0 cfg.default) (
          check_not_empty (child "values" ∷ path) 0 cfg.values
          ++ check_not_empty (child "default" ∷ path) 0 cfg.default),
      append-nil (check_not_empty (child "values" ∷ path) 0 cfg.values)
          (check_not_empty (child "default" ∷ path) 0 cfg.default),
      check_values-none cfg at (child "default" ∷ path) (child "default" ∷ path) 0 0 cfg.default,
    )

abbrev text_of : Option String → String
text_of none = ""
text_of (some s) = s

module _ (dates : Dates) (option : JobOption) (path at : FieldPath)
    (checked : validate_job_option option path ≡ []) (optional : option.required ≡ false) where
  evaluates :
      (t : OptionType)
      → option.option_type ≡ t
      → (evaluate_option dates nil option at ≡ ok (text_of (evaluate_option_default option)))
        × (evaluate_option_default option ≡ some (text_of (evaluate_option_default option)))
  unfolding evaluate_option evaluate_option_default validate_job_option
  evaluates OptionType.bool e = (ground arith, ground arith)
  evaluates OptionType.string e = (ground arith, ground arith)
  evaluates OptionType.select e = (ground arith, ground arith)
  evaluates OptionType.multi e =
      (ground (arith, multi-defaults option.multi (child "multi" ∷ path) at), ground arith)
  evaluates OptionType.date e = (ground arith, ground arith)
  evaluates (OptionType.other s) e = (ground arith, ground arith)

  -- An option that passed the checks and is not required evaluates without a value to a text,
  -- never to an error, and that text is its default.
  pub validate_job_option-evaluate :
      (s : String) × (evaluate_option dates nil option at ≡ ok s)
      × (evaluate_option_default option ≡ some s)
  validate_job_option-evaluate =
      let (e, e') = evaluates option.option_type refl in
      (text_of (evaluate_option_default option), e, e')

-- A name that was seen is not used again.
validate_options-fresh :
    (names : List String) (i : ℕ) (path : FieldPath) (spec : List JobOption) (name : String)
    → contains_string names name ≡ true
    → validate_options names i path spec ≡ []
    → any (λ option. str_eq option.name name) spec ≡ false
unfolding validate_options
validate_options-fresh names i path [] name seen e = refl
validate_options-fresh names i path (option ∷ rest) name seen e =
    let at = index i ∷ child "options" ∷ path in
    ground (
      arith,
      eq_iff option.name name,
      append-nil (validate_job_option option at)
          (validate_options (option.name ∷ names) (suc i) path rest),
      validate_options-fresh (option.name ∷ names) (suc i) path rest name,
    )

-- The names of the options, each different from all that follow it.
abbrev pub HasUniqueNames : List JobOption → Type 0
HasUniqueNames [] = Unit
HasUniqueNames (option ∷ rest) =
    (any (λ o. str_eq o.name option.name) rest ≡ false) × HasUniqueNames rest

validate_options-HasUniqueNames :
    (names : List String) (i : ℕ) (path : FieldPath) (spec : List JobOption)
    → validate_options names i path spec ≡ []
    → HasUniqueNames spec
unfolding validate_options
validate_options-HasUniqueNames names i path [] e = tt
validate_options-HasUniqueNames names i path (option ∷ rest) e =
    let at = index i ∷ child "options" ∷ path in
    ground (
      arith,
      eq_refl option.name,
      append-nil (validate_job_option option at)
          (validate_options (option.name ∷ names) (suc i) path rest),
      validate_options-fresh (option.name ∷ names) (suc i) path rest option.name,
      validate_options-HasUniqueNames (option.name ∷ names) (suc i) path rest,
    )

-- A list of options without an error has no name twice.
pub validate_option_spec-HasUniqueNames :
    (spec : OptionSpec) (path : FieldPath)
    → validate_option_spec (some spec) path ≡ []
    → HasUniqueNames spec
unfolding validate_option_spec
validate_option_spec-HasUniqueNames spec path e = validate_options-HasUniqueNames [] 0 path spec e
