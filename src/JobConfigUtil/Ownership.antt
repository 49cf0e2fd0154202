-- ===== src/JobConfigUtil/Ownership.antt =====
-- The owner that is found for a Job, and for one that is made from a JobConfig.
use furiko.Prelude.{
  ◌≡◌, refl, ap, ◌∙◌, ◌⊎◌, some, String, arith, ◌∷◌, eq_refl, eq_iff, Option-cases, inl, inr,
}
use furiko.Ktime.{Time}
use furiko.Meta.{lookup, lookup-insert}
use furiko.FieldError.{FieldPath, index, child}
use furiko.Api.Meta.{OwnerReference, label_key_job_config_uid}
use furiko.Api.Job.{Job, JobType}
use furiko.Api.JobConfig.{JobConfig}
use furiko.JobConfigUtil.{
  metadata_path, label_value, controller_from, check_owner, look_up_owner, Lookup, found, missing,
  failed, owner, validate_lookup_job_owner, new_job_from_job_config, make_labels,
}

-- The owner of a Job that is made from a JobConfig is that JobConfig, wherever the lister finds it.
pub validate_lookup_job_owner-new_job :
    (now create_time : Time) (rjc : JobConfig) (job_type : JobType) (rj : Job)
    (lister : String → Lookup)
    → new_job_from_job_config now rjc job_type create_time ≡ some rj
    → lister rjc.metadata.name ≡ found rjc
    → validate_lookup_job_owner rj lister ≡ owner rjc
unfolding validate_lookup_job_owner new_job_from_job_config make_labels
validate_lookup_job_owner-new_job now create_time rjc job_type rj lister e listed = ground (
  arith,
  lookup-insert label_key_job_config_uid label_key_job_config_uid rjc.metadata.uid
      rjc.spec.template.labels,
  eq_refl label_key_job_config_uid,
  eq_refl rjc.metadata.uid,
)

check_owner-label :
    (rj : Job) (ref : OwnerReference) (path : FieldPath) (rjc rjc' : JobConfig)
    → check_owner rj ref path rjc' ≡ owner rjc
    → (label_value (lookup label_key_job_config_uid rj.metadata.labels) ≡ rjc.metadata.uid)
      × (rjc' ≡ rjc)
check_owner-label rj ref path rjc rjc' e =
    let same : rjc' ≡ rjc = ground arith in
    let label = label_value (lookup label_key_job_config_uid rj.metadata.labels) in
    let agrees : label ≡ rjc'.metadata.uid = ground (arith, eq_iff label rjc'.metadata.uid) in
    (agrees ∙ ap (λ c. c.metadata.uid) same, same)

Lookup-cases : (l : Lookup) → ((rjc : JobConfig) × (l ≡ found rjc)) ⊎ ((l ≡ missing) ⊎ (l ≡ failed))
Lookup-cases (found rjc) = inl (rjc, refl)
Lookup-cases missing = inr (inl refl)
Lookup-cases failed = inr (inr refl)

look_up_owner-label :
    (rj : Job) (lister : String → Lookup) (rjc : JobConfig) (path : FieldPath)
    (ref : OwnerReference)
    → look_up_owner lister rj path ref ≡ owner rjc
    → (label_value (lookup label_key_job_config_uid rj.metadata.labels) ≡ rjc.metadata.uid)
      × (name : String) × (lister name ≡ found rjc)
look_up_owner-label rj lister rjc path ref e = elim (Lookup-cases (lister ref.name)) [
  | inl (rjc', h) ↦
      let (agrees, same) = check_owner-label rj ref path rjc rjc' (ground arith) in
      (agrees, ref.name, h ∙ ap found same)
  | inr h ↦ absurd (ground arith)
]

-- A JobConfig that is found as a Job's owner is the one with the UID in the Job's label.
pub validate_lookup_job_owner-label :
    (rj : Job) (lister : String → Lookup) (rjc : JobConfig)
    → validate_lookup_job_owner rj lister ≡ owner rjc
    → (label_value (lookup label_key_job_config_uid rj.metadata.labels) ≡ rjc.metadata.uid)
      × (name : String) × (lister name ≡ found rjc)
unfolding validate_lookup_job_owner
validate_lookup_job_owner-label rj lister rjc e =
    elim (Option-cases (controller_from 0 rj.metadata.owner_references)) [
      | inl h ↦ absurd (ground arith)
      | inr ((i, ref), h) ↦
          look_up_owner-label rj lister rjc (index i ∷ child "ownerReferences" ∷ metadata_path) ref
            (ground arith)
    ]
