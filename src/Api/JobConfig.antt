-- ===== src/Api/JobConfig.antt =====
-- apis/execution/v1alpha1/jobconfig_types.go.
use furiko.Prelude.{ℤ, Bool, List, Option, String}
use furiko.Ktime.{Time}
use furiko.Api.Meta.{ObjectMeta}
use furiko.Api.Options.{OptionSpec}
use furiko.Meta.{StringMap}
use furiko.Api.Job.{JobTemplateSpec, JobPhase, ConcurrencyPolicy}

pub record ConcurrencySpec : Type 0 where
  pub policy : ConcurrencyPolicy

pub record CronSchedule : Type 0 where
  pub expression : String
  pub timezone : String

pub record ScheduleConstraints : Type 0 where
  pub not_before : Option Time
  pub not_after : Option Time

pub record ScheduleSpec : Type 0 where
  pub cron : Option CronSchedule
  pub disabled : Bool
  pub constraints : Option ScheduleConstraints
  pub last_updated : Option Time

-- The metadata of a JobTemplate is its labels and annotations.
pub record JobTemplate : Type 0 where
  pub labels : StringMap
  pub annotations : StringMap
  pub spec : JobTemplateSpec

pub record JobConfigSpec : Type 0 where
  pub template : JobTemplate
  pub concurrency : ConcurrencySpec
  pub schedule : Option ScheduleSpec
  pub option : Option OptionSpec

pub data JobConfigState : Type 0 where
  ready ready_enabled ready_disabled job_queued executing : JobConfigState
  other : String → JobConfigState

pub record JobReference : Type 0 where
  pub uid : String
  pub name : String
  pub creation_timestamp : Time
  pub phase : JobPhase
  pub start_time : Option Time

pub record JobConfigStatus : Type 0 where
  pub state : JobConfigState
  pub queued : ℤ
  pub queued_jobs : List JobReference
  pub active : ℤ
  pub active_jobs : List JobReference
  pub last_scheduled : Option Time

pub record JobConfig : Type 0 where
  pub metadata : ObjectMeta
  pub spec : JobConfigSpec
  pub status : JobConfigStatus
