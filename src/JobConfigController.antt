-- ===== src/JobConfigController.antt =====
-- pkg/execution/controllers/jobconfigcontroller/reconciler.go and util.go, with state.go and
-- GetLastScheduleTime of pkg/execution/util/jobconfig: the status of a JobConfig from its Jobs.
pub mod Status
use furiko.Prelude.{
  ℤ, pos, Bool, true, false, not, ◌&&◌, List, [], ◌∷◌, Option, none, some, String, map, length,
  select, ltb_ℤ, is_some, if◌then◌else◌,
}
use furiko.Ktime.{Time, before, is_zero, is_zero_ptr, zero_time, of_unix, time_max}
use furiko.Meta.{lookup}
use furiko.Api.Meta.{annotation_key_schedule_time}
use furiko.Api.Job.{Job}
use furiko.Api.JobConfig.{
  JobConfig, JobConfigState, ready, ready_enabled, ready_disabled, job_queued, executing,
  JobReference,
}
use furiko.JobUtil.Queries.{is_active, is_queued}

abbrev pub to_job_reference : Job → JobReference
to_job_reference item = record {
  uid = item.metadata.uid;
  name = item.metadata.name;
  creation_timestamp = item.metadata.creation_timestamp;
  phase = item.status.phase;
  start_time = if is_zero_ptr item.status.start_time then none else item.status.start_time;
}

-- `sort.Slice` by creation time, as an insertion sort.
unfoldable pub insert_reference : JobReference → List JobReference → List JobReference
insert_reference ref [] = ref ∷ []
insert_reference ref (r ∷ refs) =
    if before r.creation_timestamp ref.creation_timestamp
    then r ∷ insert_reference ref refs
    else ref ∷ r ∷ refs

unfoldable pub to_job_references : List Job → List JobReference
unfolding insert_reference
to_job_references [] = []
to_job_references (item ∷ items) =
    insert_reference (to_job_reference item) (to_job_references items)

unfoldable pub get_state : JobConfig → JobConfigState
get_state rjc =
    if ltb_ℤ (pos 0) rjc.status.active
    then executing
    else if ltb_ℤ (pos 0) rjc.status.queued
    then job_queued
    else elim rjc.spec.schedule [
      | none ↦ ready
      | some spec ↦
          if is_some spec.cron
          then (if spec.disabled then ready_disabled else ready_enabled)
          else ready
    ]

-- `atoi` is strconv.Atoi, with `none` for an error.
module _ (atoi : String → Option ℤ) where
  abbrev parse_schedule_time : Option String → Option Time
  parse_schedule_time none = none
  parse_schedule_time (some val) = elim (atoi val) [ none ↦ none | some ts ↦ some (of_unix ts) ]

  unfoldable pub get_label_schedule_time : Job → Option Time
  get_label_schedule_time rj =
      parse_schedule_time (lookup annotation_key_schedule_time rj.metadata.annotations)

  abbrev pub later_of : Time → Option Time → Time
  later_of last none = last
  later_of last (some t) = if before last t then t else last

  -- The loop of GetLastScheduleTime.
  unfoldable pub last_schedule_time_from : Time → List Job → Time
  unfolding get_label_schedule_time
  last_schedule_time_from last [] = last
  last_schedule_time_from last (rj ∷ jobs) =
      last_schedule_time_from (later_of last (get_label_schedule_time rj)) jobs

  unfoldable pub get_last_schedule_time : List Job → Option Time
  unfolding last_schedule_time_from
  get_last_schedule_time jobs =
      let last = last_schedule_time_from zero_time jobs in if is_zero last then none else some last

  -- The status that SyncOne writes, from the Jobs that the lister answers.
  unfoldable pub update_status : JobConfig → List Job → JobConfig
  unfolding to_job_references get_last_schedule_time get_state
  update_status rjc rjs =
      let active_jobs = to_job_references (select is_active rjs) in
      let queued_jobs = to_job_references (select is_queued rjs) in
      let last = get_last_schedule_time rjs in
      let new_rjc = record rjc {
        status = record (rjc.status) {
          active_jobs = active_jobs;
          active = pos (length active_jobs);
          queued_jobs = queued_jobs;
          queued = pos (length queued_jobs);
          last_scheduled =
              if is_zero_ptr last
              then rjc.status.last_scheduled
              else time_max last rjc.status.last_scheduled;
        };
      } in
      record new_rjc { status = record (new_rjc.status) { state = get_state new_rjc } }
