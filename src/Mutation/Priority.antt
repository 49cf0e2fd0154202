-- ===== src/Mutation/Priority.antt =====
-- Which of a Job's substitutions win over which.
use furiko.Prelude.{◌≡◌, ap, arith, some, String, true, is_empty, [], ◌∷◌}
use furiko.Meta.{StringMap, lookup}
use furiko.Api.Job.{Job}
use furiko.Api.JobConfig.{JobConfig}
use furiko.FieldError.{child}
use furiko.Options.{evaluate_options}
use furiko.Options.Variables.{merge_substitutions, lookup-merge_substitutions, or_else}
use furiko.VariableContext.{make_variables_from_job_config}
use furiko.Mutation.{Env, Result, evaluate_with_owner, evaluate_option_values}

module _ (env : Env) (rj : Job) (rjc : JobConfig) (result : Result) (evaluated : StringMap)
    (unset : is_empty rj.spec.option_values ≡ true)
    (valid : evaluate_options env.dates [] rjc.spec.option
        (child "optionValues" ∷ child "spec" ∷ [])
      ≡ (evaluated, [])) where
  option_substitutions :
      (evaluate_option_values env rj
        (some rjc)
        (child "optionValues" ∷ child "spec" ∷ [])).0.spec.substitutions
      ≡ merge_substitutions (evaluated ∷ rj.spec.substitutions ∷ [])
  unfolding evaluate_option_values
  option_substitutions = ground arith

  -- Where the options of the JobConfig evaluate without an error, the substitutions of a Job
  -- without option values are its own, then those of the options, then the variables of the
  -- JobConfig, each for the keys that those before do not have.
  pub evaluate_with_owner-priority :
      (key : String)
      → lookup key (evaluate_with_owner env rj result (some rjc)).0.spec.substitutions
        ≡ or_else
            (lookup key rj.spec.substitutions)
            (or_else (lookup key evaluated) (lookup key (make_variables_from_job_config rjc)))
  evaluate_with_owner-priority key =
      let inner =
        (evaluate_option_values env rj (some rjc)
          (child "optionValues" ∷ child "spec" ∷ [])).0.spec.substitutions in
      ground (
        arith,
        option_substitutions,
        ap (λ m. lookup key m) option_substitutions,
        lookup-merge_substitutions key (make_variables_from_job_config rjc ∷ inner ∷ []),
        lookup-merge_substitutions key (evaluated ∷ rj.spec.substitutions ∷ []),
      )
