-- ===== src/Cron.antt =====
-- pkg/execution/controllers/croncontroller: schedule.go keeps the next schedule time of each
-- JobConfig, cron_worker.go enqueues the schedules that are due. The cron parser and the time zone
-- database are parameters, as `Parsers`; a time carries no location, `next` has it as an argument.
-- The clock is read once for each sync.
pub mod Schedule
pub mod CatchUp
pub mod Keys
pub mod Reconcile
use furiko.Prelude.{
  ℕ, zero, suc, ◌*◌, ℤ, pos, negsuc, pos_part, ◌-ℤ◌, wrap64, Bool, true, false, not, ◌&&◌, ◌||◌,
  List, [], ◌∷◌, Option, none, some, String, str_eq, if◌then◌else◌, ltb_ℤ, is_none,
}
use furiko.Ktime.{
  Time, Duration, add, sub, seconds, second, before, after, is_zero, is_zero_ptr,
  unwrap_meta_v1_time, nanoseconds_per_second, zero_time,
}
use furiko.Meta.{lookup, insert}
use furiko.Api.JobConfig.{JobConfig, ScheduleSpec, ScheduleConstraints, CronSchedule}
use furiko.Api.Config.{CronExecutionConfig}

-- The map nextScheduleTime.
abbrev pub ScheduleTimes : Type 0
ScheduleTimes = List (String × Time)

abbrev pub remove_key : String → ScheduleTimes → ScheduleTimes
remove_key key [] = []
remove_key key ((k, t) ∷ times) =
    if str_eq key k then remove_key key times else (k, t) ∷ remove_key key times

-- `namespace/name`, or the name alone where there is no namespace.
unfoldable pub get_next_schedule_key : (String → String → String) → JobConfig → String
get_next_schedule_key join jc =
    if str_eq jc.metadata.namespace ""
    then jc.metadata.name
    else join jc.metadata.namespace jc.metadata.name

abbrev pub default_max_downtime_threshold : Duration
default_max_downtime_threshold = pos (300 * nanoseconds_per_second)

-- The last schedule in the status, but no more than the threshold ago.
unfoldable pub back_to_last : Option Time → Time → Duration → Time → Time
back_to_last last now threshold from_time =
    let t = unwrap_meta_v1_time last in
    if is_zero_ptr last
    then from_time
    else if ltb_ℤ threshold (sub now t)
    then add now (wrap64 (pos 0 -ℤ threshold))
    else t

unfoldable pub up_to_last_updated : Option Time → Time → Time
up_to_last_updated last_updated from_time =
    let t = unwrap_meta_v1_time last_updated in
    if not (is_zero_ptr last_updated) && after t from_time then t else from_time

-- A nanosecond before NotBefore, so that a schedule at NotBefore is found.
unfoldable pub up_to_not_before : Option Time → Time → Time
up_to_not_before not_before from_time =
    let t = unwrap_meta_v1_time not_before in
    if not (is_zero_ptr not_before) && before from_time t then add t (negsuc 0) else from_time

-- `key` is the JobConfig's, `next` the parsed expression's Next in the JobConfig's time zone.
module _ (key : String) (next : Time → Time) (jc : JobConfig) where
  unfoldable pub set_next_schedule_time : Time → ScheduleTimes → ScheduleTimes
  set_next_schedule_time ts times = elim (lookup key times) [
    | none ↦ insert key ts times
    | some prev ↦ if not (is_zero ts) && before ts prev then times else insert key ts times
  ]

  abbrev pub constraints : Option ScheduleConstraints
  constraints = elim jc.spec.schedule [ none ↦ none | some spec ↦ spec.constraints ]

  abbrev pub not_after : Option Time
  not_after = elim constraints [ none ↦ none | some c ↦ c.not_after ]

  abbrev pub not_before : Option Time
  not_before = elim constraints [ none ↦ none | some c ↦ c.not_before ]

  abbrev pub last_updated : Option Time
  last_updated = elim jc.spec.schedule [ none ↦ none | some spec ↦ spec.last_updated ]

  -- The next time, or the zero time where it is past NotAfter.
  abbrev pub capped_next : Time → Time
  capped_next from_time =
      let t = next from_time in
      if not (is_zero_ptr not_after) && after t (unwrap_meta_v1_time not_after)
      then zero_time
      else t

  unfoldable pub bump_next_schedule_time : Time → ScheduleTimes → Time × ScheduleTimes
  unfolding set_next_schedule_time
  bump_next_schedule_time from_time times =
      let t = capped_next from_time in (t, set_next_schedule_time t times)

  unfoldable pub max_downtime_threshold : Option CronExecutionConfig → Duration
  max_downtime_threshold none = default_max_downtime_threshold
  max_downtime_threshold (some cfg) =
      if ltb_ℤ (pos 0) cfg.max_downtime_threshold_seconds
      then seconds cfg.max_downtime_threshold_seconds
      else default_max_downtime_threshold

  -- From where the next schedule is searched, if none is stored.
  unfoldable pub search_from : Option CronExecutionConfig → Time → Time → Time
  unfolding max_downtime_threshold back_to_last up_to_last_updated up_to_not_before
  search_from cfg now from_time = up_to_not_before not_before (
      up_to_last_updated last_updated
        (back_to_last jc.status.last_scheduled now (max_downtime_threshold cfg) from_time))

  unfoldable pub get_next_schedule_time :
      Option CronExecutionConfig → Time → Time → ScheduleTimes → Time × ScheduleTimes
  unfolding bump_next_schedule_time search_from
  get_next_schedule_time cfg now from_time times = elim (lookup key times) [
    | some t ↦ (t, times)
    | none ↦ bump_next_schedule_time (search_from cfg now from_time) times
  ]

unfoldable pub flush_next_schedule_time : String → ScheduleTimes → ScheduleTimes
flush_next_schedule_time key times = remove_key key times

-- The schedule times, and what was put on the work queue, the last first.
pub record Worker : Type 0 where
  pub times : ScheduleTimes
  pub enqueued : List (String × Time)

pub data SyncError : Type 0 where
  parse_failed timezone_failed enqueue_failed : SyncError

-- How a sync ends: with nothing to do, with no schedule due any more, after too many missed
-- schedules, or with an error.
pub data SyncResult : Type 0 where
  disabled caught_up missed_too_many : SyncResult
  failed : SyncError → SyncResult

module _ (key : String) (next : Time → Time) (jc : JobConfig) (cfg : CronExecutionConfig)
    (now : Time) (enqueue_ok : Time → Bool) where
  -- The loop of syncOne, for at most `n` schedules.
  unfoldable pub catch_up : ℕ → Worker → SyncResult × Worker
  unfolding get_next_schedule_time
  catch_up zero w =
      (missed_too_many, record w { times = (bump_next_schedule_time key next jc now w.times).1 })
  catch_up (suc n) w =
      let (t, times) = get_next_schedule_time key next jc (some cfg) now now w.times in
      let rest = catch_up n record {
        times = (bump_next_schedule_time key next jc t times).1;
        enqueued = (key, t) ∷ w.enqueued;
      } in
      if is_zero t || after t now
      then (caught_up, record w { times = times })
      else if not (enqueue_ok t)
      then (failed enqueue_failed, record w { times = times })
      else rest

abbrev pub default_timezone : String
default_timezone = "UTC"

abbrev timezone_of_config : Option String → String
timezone_of_config none = default_timezone
timezone_of_config (some tz) = if str_eq tz "" then default_timezone else tz

unfoldable pub get_timezone : CronSchedule → CronExecutionConfig → String
get_timezone cron cfg =
    if not (str_eq cron.timezone "") then cron.timezone else timezone_of_config cfg.default_timezone

-- The cron parser and the time zone database.
pub record Parsers (Expression Location : Type 0) : Type 0 where
  pub parse : String → String → Option Expression
  pub parse_timezone : String → Option Location
  pub next : Expression → Location → Time → Time
  pub join_key : String → String → String

abbrev pub max_missed_schedules : CronExecutionConfig → ℕ
max_missed_schedules cfg = elim cfg.max_missed_schedules [ none ↦ 0 | some n ↦ pos_part n ]

-- The schedule that a sync reads, unless it is disabled.
abbrev pub enabled_cron : JobConfig → Option CronSchedule
enabled_cron jc = elim jc.spec.schedule [
  | none ↦ none
  | some spec ↦ if spec.disabled then none else elim spec.cron [
    | none ↦ none
    | some cron ↦ if str_eq cron.expression "" then none else some cron
  ]
]

module _ {Expression Location : Type 0} (p : Parsers Expression Location) where
  abbrev sync_with :
      Option Expression
      → Option Location
      → JobConfig
      → CronExecutionConfig
      → Time
      → (Time → Bool)
      → Worker
      → SyncResult × Worker
  sync_with none l jc cfg now enqueue_ok w = (failed parse_failed, w)
  sync_with (some e) none jc cfg now enqueue_ok w = (failed timezone_failed, w)
  sync_with (some e) (some l) jc cfg now enqueue_ok w =
      catch_up (get_next_schedule_key p.join_key jc) (p.next e l) jc cfg now enqueue_ok
        (max_missed_schedules cfg) w

  unfoldable pub sync_one :
      JobConfig → CronExecutionConfig → Time → (Time → Bool) → Worker → SyncResult × Worker
  unfolding catch_up get_next_schedule_key get_timezone
  sync_one jc cfg now enqueue_ok w = elim (enabled_cron jc) [
    | none ↦ (disabled, w)
    | some cron ↦
        sync_with (p.parse cron.expression (get_next_schedule_key p.join_key jc))
          (p.parse_timezone (get_timezone cron cfg)) jc cfg now enqueue_ok w
  ]
