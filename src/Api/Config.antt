-- ===== src/Api/Config.antt =====
-- The dynamic configuration, apis/config/v1alpha1/dynamicconfig_types.go.
use furiko.Prelude.{ℤ, Option, String}

pub record JobExecutionConfig : Type 0 where
  pub default_ttl_seconds_after_finished : Option ℤ
  pub default_pending_timeout_seconds : Option ℤ
  pub delete_killing_tasks_timeout_seconds : Option ℤ
  pub force_delete_killing_tasks_timeout_seconds : Option ℤ

pub record JobConfigExecutionConfig : Type 0 where
  pub max_enqueued_jobs : Option ℤ

pub record CronExecutionConfig : Type 0 where
  pub max_missed_schedules : Option ℤ
  pub max_downtime_threshold_seconds : ℤ
  pub default_timezone : Option String
