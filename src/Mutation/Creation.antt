-- ===== src/Mutation/Creation.antt =====
-- What a Job is when it is created by the name of a JobConfig.
use furiko.Prelude.{
  true, false, ◌≡◌, refl, ◌∙◌, ap, arith, Option, none, some, String, is_empty, [], ◌∷◌, eq_refl,
}
use furiko.Meta.{lookup, lookup-insert, contains_finalizer, contains-merge_finalizers}
use furiko.Options.Variables.{insert_all}
use furiko.Api.Meta.{delete_dependents_finalizer, label_key_job_config_uid}
use furiko.Api.Job.{Job}
use furiko.Api.JobConfig.{JobConfig}
use furiko.FieldError.{FieldPath, child}
use furiko.JobConfigUtil.{
  label_value, Lookup, found, missing, failed, Owner, owner, no_owner, errors,
  validate_lookup_job_owner, new_job_from_job_config, make_labels,
}
use furiko.Mutation.{
  Env, Result, mutate_create_job, evaluate_config_name, evaluate_option_values, merge_base_job,
  finish_with_owner, add_finalizer, apply_base_job, evaluate_looked_up,
}

-- The part of a Job's metadata that later steps do not write.
abbrev SameMetadata : Job → Job → Type 0
SameMetadata a b =
    (a.metadata.owner_references ≡ b.metadata.owner_references)
    × (a.metadata.labels ≡ b.metadata.labels)
    × (a.metadata.finalizers ≡ b.metadata.finalizers)
    × (a.metadata.namespace ≡ b.metadata.namespace)

module _ (env : Env) where
  evaluate_option_values-SameMetadata :
      (rj : Job) (rjc : Option JobConfig) (path : FieldPath)
      → SameMetadata (evaluate_option_values env rj rjc path).0 rj
  unfolding evaluate_option_values
  evaluate_option_values-SameMetadata rj none path = (refl, refl, refl, refl)
  evaluate_option_values-SameMetadata rj (some rjc) path = ground arith

  finish_with_owner-SameMetadata :
      (rj : Job) (result : Result) (o : Owner)
      → SameMetadata (finish_with_owner env rj result o).0 rj
  finish_with_owner-SameMetadata rj result (errors errs) = (refl, refl, refl, refl)
  finish_with_owner-SameMetadata rj result no_owner =
      evaluate_option_values-SameMetadata rj none (child "optionValues" ∷ child "spec" ∷ [])
  finish_with_owner-SameMetadata rj result (owner rjc) =
      evaluate_option_values-SameMetadata rj (some rjc) (child "optionValues" ∷ child "spec" ∷ [])

  add_finalizer-contains :
      (rj : Job)
      → contains_finalizer (add_finalizer env rj).metadata.finalizers delete_dependents_finalizer
        ≡ true
  unfolding contains_finalizer
  add_finalizer-contains rj = ground (
    arith,
    contains-merge_finalizers rj.metadata.finalizers (delete_dependents_finalizer ∷ [])
        delete_dependents_finalizer,
    eq_refl delete_dependents_finalizer,
  )

  apply_base_job-finalizer :
      (rj : Job) (rjc : JobConfig) (path : FieldPath) (base : Option Job)
      → contains_finalizer rj.metadata.finalizers delete_dependents_finalizer ≡ true
      → contains_finalizer
          (apply_base_job env rj rjc path base).0.metadata.finalizers
          delete_dependents_finalizer
        ≡ true
  unfolding merge_base_job
  apply_base_job-finalizer rj rjc path none had = had
  apply_base_job-finalizer rj rjc path (some base) had = ground (
    arith,
    contains-merge_finalizers base.metadata.finalizers rj.metadata.finalizers
        delete_dependents_finalizer,
  )

  -- The Job after the name of its JobConfig was looked up.
  finalizer_after_lookup :
      (rj : Job) (path : FieldPath) (l : Lookup)
      → contains_finalizer rj.metadata.finalizers delete_dependents_finalizer ≡ true
      → contains_finalizer
          (evaluate_looked_up env rj path l).0.metadata.finalizers
          delete_dependents_finalizer
        ≡ true
  finalizer_after_lookup rj path missing had = had
  finalizer_after_lookup rj path failed had = had
  finalizer_after_lookup rj path (found rjc) had =
      apply_base_job-finalizer rj rjc path
        (new_job_from_job_config env.now rjc rj.spec.job_type rj.metadata.creation_timestamp) had

  evaluate_config_name-finalizer :
      (rj : Job) (name : String) (path : FieldPath)
      → contains_finalizer rj.metadata.finalizers delete_dependents_finalizer ≡ true
      → contains_finalizer
          (evaluate_config_name env rj name path).0.metadata.finalizers
          delete_dependents_finalizer
        ≡ true
  unfolding evaluate_config_name
  evaluate_config_name-finalizer rj name path had =
      ground (arith, finalizer_after_lookup rj path (env.lister rj.metadata.namespace name) had)

  -- A Job that is created has the finalizer by which its tasks are deleted before it.
  pub mutate_create_job-finalizer :
      (rj : Job)
      → contains_finalizer
          (mutate_create_job env rj).0.metadata.finalizers
          delete_dependents_finalizer
        ≡ true
  unfolding mutate_create_job
  mutate_create_job-finalizer rj =
      let path = child "configName" ∷ child "spec" ∷ [] in
      let (rj', result) =
        evaluate_config_name env (add_finalizer env rj) rj.spec.config_name path in
      let (refs, labels, finalizers, namespace) =
        finish_with_owner-SameMetadata rj' result
          (validate_lookup_job_owner rj' (env.lister rj'.metadata.namespace)) in
      ap (λ fs. contains_finalizer fs delete_dependents_finalizer) finalizers
      ∙ evaluate_config_name-finalizer (add_finalizer env rj) rj.spec.config_name path
          (add_finalizer-contains rj)

  -- The owner of a Job depends on its owner references and its labels.
  validate_lookup_job_owner-same :
      (a b : Job) (lister : String → Lookup)
      → a.metadata.owner_references ≡ b.metadata.owner_references
      → a.metadata.labels ≡ b.metadata.labels
      → validate_lookup_job_owner a lister ≡ validate_lookup_job_owner b lister
  unfolding validate_lookup_job_owner
  validate_lookup_job_owner-same a b lister refs labels = λ i.
      validate_lookup_job_owner
        (record a {
          metadata = record (a.metadata) { owner_references = refs i; labels = labels i };
        })
        lister

  merge_base_job-owner :
      (rj base : Job) (rjc : JobConfig) (lister : String → Lookup)
      → new_job_from_job_config env.now rjc rj.spec.job_type rj.metadata.creation_timestamp
        ≡ some base
      → lister rjc.metadata.name ≡ found rjc
      → validate_lookup_job_owner (merge_base_job rj base rjc) lister ≡ owner rjc
  unfolding validate_lookup_job_owner merge_base_job new_job_from_job_config make_labels
  merge_base_job-owner rj base rjc lister made listed =
      let merged = insert_all rj.metadata.labels base.metadata.labels in
      let uid = label_value (lookup label_key_job_config_uid base.metadata.labels) in
      ground (
        arith,
        lookup-insert label_key_job_config_uid label_key_job_config_uid uid merged,
        lookup-insert label_key_job_config_uid label_key_job_config_uid rjc.metadata.uid
            rjc.spec.template.labels,
        eq_refl label_key_job_config_uid,
        eq_refl rjc.metadata.uid,
      )

  -- A Job that is created by the name of a JobConfig is owned by that JobConfig, whatever
  -- references and labels it came with, if the lister finds the JobConfig under that name and a
  -- Job can be made from it.
  pub mutate_create_job-owner :
      (rj base : Job) (rjc : JobConfig)
      → is_empty rj.spec.config_name ≡ false
      → env.lister rj.metadata.namespace rj.spec.config_name ≡ found rjc
      → rjc.metadata.name ≡ rj.spec.config_name
      → new_job_from_job_config env.now rjc rj.spec.job_type rj.metadata.creation_timestamp
        ≡ some base
      → validate_lookup_job_owner (mutate_create_job env rj).0 (env.lister rj.metadata.namespace)
        ≡ owner rjc
  unfolding mutate_create_job evaluate_config_name
  mutate_create_job-owner rj base rjc named listed same made =
      let lister = env.lister rj.metadata.namespace in
      let path = child "configName" ∷ child "spec" ∷ [] in
      let (rj', result) =
        evaluate_config_name env (add_finalizer env rj) rj.spec.config_name path in
      let (refs, labels, finalizers, namespace) =
        finish_with_owner-SameMetadata rj' result
          (validate_lookup_job_owner rj' (env.lister rj'.metadata.namespace)) in
      let merged = merge_base_job (add_finalizer env rj) base rjc in
      let is_merged : rj' ≡ merged = ground arith in
      validate_lookup_job_owner-same (mutate_create_job env rj).0 rj' lister refs labels
      ∙ ap (λ j. validate_lookup_job_owner j lister) is_merged
      ∙ merge_base_job-owner (add_finalizer env rj) base rjc lister made (ap lister same ∙ listed)
