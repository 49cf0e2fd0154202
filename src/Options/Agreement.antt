-- ===== src/Options/Agreement.antt =====
-- Evaluation without values, and the defaults that are computed apart, agree.
use furiko.Prelude.{◌≡◌, refl, List, [], ◌∷◌, Option, none, some, String, arith, ◌⊎◌, inl, inr}
use furiko.Meta.{StringMap, insert, lookup}
use furiko.Api.Options.{JobOption, OptionSpec}
use furiko.FieldError.{FieldPath, FieldError, key, ErrorList}
use furiko.Options.{
  Value, nil, Evaluated, ok, error, Dates, evaluate_option, evaluate_each, evaluate_options,
  make_option_variable_name, record_evaluated, value_of,
}
use furiko.Options.Defaults.{
  evaluate_option_default, make_defaults, make_default_options, default_job_option,
  default_option_spec,
}

default_job_option_idem :
    (option : JobOption)
    → default_job_option (default_job_option option) ≡ default_job_option option
unfolding default_job_option
default_job_option_idem option = ground arith

-- Defaulting the options of a JobConfig twice is defaulting them once.
pub default_option_spec_idem :
    (spec : OptionSpec) → default_option_spec (default_option_spec spec) ≡ default_option_spec spec
unfolding default_option_spec
default_option_spec_idem [] = refl
default_option_spec_idem (option ∷ spec) =
    cc (default_job_option_idem option, default_option_spec_idem spec)

Evaluated-cases : (r : Evaluated) → ((s : String) × (r ≡ ok s)) ⊎ ((e : FieldError) × (r ≡ error e))
Evaluated-cases (ok s) = inl (s, refl)
Evaluated-cases (error e) = inr (e, refl)

record_evaluated-errors :
    (dates : Dates) (name : String) (r : Evaluated) (eval : StringMap) (errs : ErrorList)
    → (record_evaluated dates name r (eval, errs)).1 ≡ []
    → errs ≡ []
record_evaluated-errors dates name (ok s) eval errs e = e
record_evaluated-errors dates name (error err) eval [] e = refl
record_evaluated-errors dates name (error err) eval (x ∷ errs) e = cc

module _ (dates : Dates) where
  evaluate_option-default :
      (option : JobOption) (path : FieldPath) (s : String)
      → evaluate_option dates nil option path ≡ ok s
      → evaluate_option_default option ≡ some s
  unfolding evaluate_option evaluate_option_default
  evaluate_option-default option path s e = ground arith

  -- An error that was met stays.
  evaluate_each-errors :
      (path : FieldPath) (spec : List JobOption) (options : List (String × Value))
      (eval : StringMap) (errs : ErrorList)
      → (evaluate_each dates options path (eval, errs) spec).1 ≡ []
      → errs ≡ []
  unfolding evaluate_each
  evaluate_each-errors path [] options eval errs e = e
  evaluate_each-errors path (option ∷ spec) options eval errs e =
      let name = make_option_variable_name option in
      let r =
        evaluate_option dates (value_of dates (lookup option.name options)) option
          (key option.name ∷ path) in
      record_evaluated-errors dates name r eval errs (
        evaluate_each-errors path spec options (record_evaluated dates name r (eval, errs)).0
          (record_evaluated dates name r (eval, errs)).1 e)

  evaluate_each-defaults :
      (path : FieldPath) (spec : List JobOption) (eval : StringMap)
      → (evaluate_each dates [] path (eval, []) spec).1 ≡ []
      → make_defaults eval spec ≡ some (evaluate_each dates [] path (eval, []) spec).0
  unfolding evaluate_each make_defaults lookup
  evaluate_each-defaults path [] eval e = refl
  evaluate_each-defaults path (option ∷ spec) eval e =
      let name = make_option_variable_name option in
      let r = evaluate_option dates nil option (key option.name ∷ path) in
      let none_yet =
        evaluate_each-errors path spec [] (record_evaluated dates name r (eval, [])).0
          (record_evaluated dates name r (eval, [])).1 e in
      elim (Evaluated-cases r) [
        | inl (s, h) ↦ ground (
          arith,
          evaluate_option-default option (key option.name ∷ path) s,
          evaluate_each-defaults path spec (insert name s eval),
        )
        | inr (err, h) ↦ absurd (ground arith)
      ]

  -- If no values are given and EvaluateOptions meets no error, MakeDefaultOptions, which computes
  -- the defaults apart, answers the same map.
  pub evaluate_options-default :
      (spec : Option OptionSpec) (path : FieldPath)
      → (evaluate_options dates [] spec path).1 ≡ []
      → make_default_options spec ≡ some (evaluate_options dates [] spec path).0
  unfolding evaluate_options make_default_options
  evaluate_options-default none path e = refl
  evaluate_options-default (some spec) path e = evaluate_each-defaults path spec [] e
