-- ===== src/Examples/Cron.antt =====
-- The theorems on the cron controller for a schedule of a Job each minute.
use furiko.Prelude.{
  String, ◌≡◌, ◌*◌, ◌+ℤ◌, ◌*ℤ◌, wrap64, ◌||◌, refl, pos, true, false, [], ◌∷◌, some, none, arith,
  ltb_ℤ,
}
use furiko.Ktime.{Time, is_zero, seconds, nanoseconds_per_second}
use furiko.Meta.{lookup, insert}
use furiko.Api.JobConfig.{JobConfig}
use furiko.Api.Config.{CronExecutionConfig}
use furiko.Cron.{
  ScheduleTimes, Worker, get_next_schedule_time, catch_up, caught_up, max_downtime_threshold,
}
use furiko.Cron.Schedule.{IsNext, get_next-after_last}
use furiko.Cron.CatchUp.{strictly_ascends, catch_up-twice, catch_up-ascends}
use furiko.Samples.{job_config, at_second}

-- A minute after each time: a stand-in for a parsed expression.
abbrev minutely : Time → Time
minutely t = t +ℤ pos (60 * nanoseconds_per_second)

minutely-IsNext : IsNext minutely
unfolding ◌+ℤ◌
minutely-IsNext t = ground arith

abbrev cron_config : JobConfig
cron_config = record job_config {
  spec = record (job_config.spec) {
    schedule = some record {
      cron = some record { expression = "* * * * *"; timezone = "" };
      disabled = false;
      constraints =
          some record { not_before = some (at_second 100); not_after = some (at_second 1000) };
      last_updated = none;
    };
  };
  status = record (job_config.status) { last_scheduled = some (at_second 60) };
}

abbrev config : CronExecutionConfig
config = record {
  max_missed_schedules = some (pos 5);
  max_downtime_threshold_seconds = pos 300;
  default_timezone = none;
}

abbrev key : String
key = "default/config-1"

abbrev stored : ScheduleTimes
stored = (key, at_second 120) ∷ []

abbrev worker : Worker
worker = record { times = stored; enqueued = [] }

get_next-after_last_example :
    (let t =
        (get_next_schedule_time key minutely cron_config
          (some config)
          (at_second 130)
          (at_second 130)
          []).0 in
      is_zero t || ltb_ℤ (at_second 60) t)
    ≡ true
unfolding lookup max_downtime_threshold seconds wrap64 ◌*ℤ◌
get_next-after_last_example =
    get_next-after_last key minutely cron_config (some config) (at_second 130) (at_second 130)
      (at_second 60) (300 * nanoseconds_per_second) [] minutely-IsNext refl refl (omega arith) refl
      refl

catch_up-twice_example :
    catch_up key minutely cron_config config
      (at_second 250)
      (λ _. true)
      5
      (catch_up key minutely cron_config config (at_second 250) (λ _. true) 5 worker).1
    ≡ (caught_up, (catch_up key minutely cron_config config (at_second 250) (λ _. true) 5 worker).1)
unfolding catch_up lookup ◌+ℤ◌ insert
catch_up-twice_example =
    catch_up-twice key minutely cron_config config (at_second 250) (λ _. true) 5 4 worker
      minutely-IsNext refl

catch_up-ascends_example :
    strictly_ascends key minutely cron_config config
      (at_second 250)
      (λ _. true)
      (catch_up key minutely cron_config config (at_second 250) (λ _. true) 5 worker).1.enqueued
    ≡ true
catch_up-ascends_example =
    catch_up-ascends key minutely cron_config config (at_second 250) (λ _. true) 5 stored
      minutely-IsNext
