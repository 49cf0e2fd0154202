-- ===== src/Mutation/JobConfigs.antt =====
-- pkg/execution/mutation: what is filled in of a JobConfig. `now` is what the clock answers.
use furiko.Prelude.{
  false, Bool-cases, inl, inr, eq_iff, eqb_ℤ, Bool, true, not, Option, none, some, ◌≡◌, refl, ap,
  arith, if◌then◌else◌, leb_ℤ,
}
use furiko.Ktime.{Time, is_time_set_and_later_than, unwrap_meta_v1_time}
use furiko.Api.Options.{OptionSpec}
use furiko.Api.JobConfig.{JobConfig, ScheduleSpec}
use furiko.Equality.{
  equal_option, equal_schedule_spec, equal_cron_schedule, equal_constraints, equal_bool, IsSound,
  equal_option-IsSound, eqb_ℤ-IsSound,
}
use furiko.Options.Defaults.{default_option_spec}
use furiko.Options.Agreement.{default_option_spec_idem}

abbrev default_option : Option OptionSpec → Option OptionSpec
default_option none = none
default_option (some spec) = some (default_option_spec spec)

unfoldable pub mutate_job_config : JobConfig → JobConfig
unfolding default_option_spec
mutate_job_config rjc = record rjc {
  spec = record (rjc.spec) { option = default_option rjc.spec.option };
}

abbrev bump_schedule : Time → ScheduleSpec → ScheduleSpec
bump_schedule now schedule =
    if not (is_time_set_and_later_than schedule.last_updated now)
    then record schedule { last_updated = some now }
    else schedule

abbrev set_schedule : JobConfig → ScheduleSpec → JobConfig
set_schedule rjc schedule = record rjc { spec = record (rjc.spec) { schedule = some schedule } }

unfoldable pub mutate_create_job_config : Time → JobConfig → JobConfig
unfolding is_time_set_and_later_than
mutate_create_job_config now rjc = elim rjc.spec.schedule [
  | none ↦ rjc
  | some schedule ↦ set_schedule rjc (bump_schedule now schedule)
]

abbrev with_old_last_updated : Option ScheduleSpec → ScheduleSpec → ScheduleSpec
with_old_last_updated none schedule = schedule
with_old_last_updated (some old) schedule = record schedule { last_updated = old.last_updated }

-- Does a schedule differ from the old one in more than when it was last updated?
abbrev is_changed : Option ScheduleSpec → ScheduleSpec → Bool
is_changed old schedule =
    not (equal_option equal_schedule_spec old (some (with_old_last_updated old schedule)))

unfoldable pub mutate_update_job_config : Time → JobConfig → JobConfig → JobConfig
unfolding is_time_set_and_later_than
mutate_update_job_config now old_rjc rjc = elim rjc.spec.schedule [
  | none ↦ rjc
  | some schedule ↦
      if is_changed old_rjc.spec.schedule schedule
      then set_schedule rjc (bump_schedule now schedule)
      else rjc
]

-- JobConfigPatcher.Patch for the two operations.
unfoldable pub patch_create : Time → JobConfig → JobConfig
unfolding mutate_create_job_config mutate_job_config
patch_create now rjc = mutate_job_config (mutate_create_job_config now rjc)

unfoldable pub patch_update : Time → JobConfig → JobConfig → JobConfig
unfolding mutate_update_job_config mutate_job_config
patch_update now old_rjc rjc = mutate_update_job_config now old_rjc (mutate_job_config rjc)

bump_schedule-last_updated :
    (now : Time) (schedule : ScheduleSpec)
    → leb_ℤ now (unwrap_meta_v1_time (bump_schedule now schedule).last_updated) ≡ true
unfolding is_time_set_and_later_than
bump_schedule-last_updated now schedule = ground arith

-- The new schedule is the old one, but for the time of its last update.
abbrev pub SameSchedule : Option ScheduleSpec → ScheduleSpec → Type 0
SameSchedule old new =
    (o : ScheduleSpec) × (old ≡ some o)
    × (o.cron ≡ new.cron)
    × (o.constraints ≡ new.constraints)
    × (o.disabled ≡ new.disabled)

equal_bool-IsSound : IsSound equal_bool
equal_bool-IsSound a b e = ground arith

equal_cron_schedule-IsSound : IsSound equal_cron_schedule
equal_cron_schedule-IsSound a b e =
    grind (arith, eq_iff a.expression b.expression, eq_iff a.timezone b.timezone)

equal_constraints-IsSound : IsSound equal_constraints
equal_constraints-IsSound a b e = grind (
  arith,
  equal_option-IsSound eqb_ℤ eqb_ℤ-IsSound a.not_before b.not_before,
  equal_option-IsSound eqb_ℤ eqb_ℤ-IsSound a.not_after b.not_after,
)

-- A schedule that the code takes for unchanged is the same.
unchanged-SameSchedule :
    (old : Option ScheduleSpec) (new : ScheduleSpec)
    → is_changed old new ≡ false
    → SameSchedule old new
unchanged-SameSchedule none new e = absurd (ground arith)
unchanged-SameSchedule (some old) new e = (
  old,
  refl,
  equal_option-IsSound equal_cron_schedule equal_cron_schedule-IsSound old.cron new.cron
      (ground arith),
  equal_option-IsSound equal_constraints equal_constraints-IsSound old.constraints new.constraints
      (ground arith),
  equal_bool-IsSound old.disabled new.disabled (ground arith),
)

is_changed-SameSchedule :
    (old : Option ScheduleSpec) (new : ScheduleSpec)
    → (SameSchedule old new → ⊥)
    → is_changed old new ≡ true
is_changed-SameSchedule old new differs = elim (Bool-cases (is_changed old new)) [
  | inl changed ↦ changed
  | inr same ↦ absurd (differs (unchanged-SameSchedule old new same))
]

patch_update-changed :
    (now : Time) (old rjc : JobConfig) (schedule : ScheduleSpec)
    → rjc.spec.schedule ≡ some schedule
    → is_changed old.spec.schedule schedule ≡ true
    → (updated : ScheduleSpec) × ((patch_update now old rjc).spec.schedule ≡ some updated)
      × (leb_ℤ now (unwrap_meta_v1_time updated.last_updated) ≡ true)
      × (updated.cron ≡ schedule.cron)
      × (updated.constraints ≡ schedule.constraints)
      × (updated.disabled ≡ schedule.disabled)
unfolding patch_update mutate_update_job_config mutate_job_config is_time_set_and_later_than
patch_update-changed now old rjc schedule e changed = (
  bump_schedule now schedule,
  ground arith,
  bump_schedule-last_updated now schedule,
  ground arith,
  ground arith,
  ground arith,
)

-- Where an update sets a schedule that has not the cron, the constraints and the switch of an old
-- one, it is kept but for the time of its last update, and that is not before the clock.
pub patch_update-last_updated :
    (now : Time) (old rjc : JobConfig) (schedule : ScheduleSpec)
    → rjc.spec.schedule ≡ some schedule
    → (SameSchedule old.spec.schedule schedule → ⊥)
    → (updated : ScheduleSpec) × ((patch_update now old rjc).spec.schedule ≡ some updated)
      × (leb_ℤ now (unwrap_meta_v1_time updated.last_updated) ≡ true)
      × (updated.cron ≡ schedule.cron)
      × (updated.constraints ≡ schedule.constraints)
      × (updated.disabled ≡ schedule.disabled)
patch_update-last_updated now old rjc schedule e differs =
    patch_update-changed now old rjc schedule e
      (is_changed-SameSchedule old.spec.schedule schedule differs)

default_option_idem : (o : Option OptionSpec) → default_option (default_option o) ≡ default_option o
default_option_idem none = refl
default_option_idem (some spec) = ap some (default_option_spec_idem spec)

-- A JobConfig that was filled in is not changed by filling it in again.
pub mutate_job_config_idem :
    (rjc : JobConfig) → mutate_job_config (mutate_job_config rjc) ≡ mutate_job_config rjc
unfolding mutate_job_config
mutate_job_config_idem rjc =
    ap (λ o. record rjc { spec = record (rjc.spec) { option = o } })
      (default_option_idem rjc.spec.option)
