-- ===== src/Api/Job.antt =====
-- apis/execution/v1alpha1/job_types.go. A Go string type with named constants is a data type with
-- those constants; `other` stands for every other string, the empty one among them.
use furiko.Prelude.{ℤ, Bool, true, false, List, Option, String}
use furiko.Ktime.{Time}
use furiko.Meta.{StringMap}
use furiko.Api.Meta.{ObjectMeta}
use furiko.Api.Pod.{PodTemplateSpec}

pub data JobType : Type 0 where
  adhoc scheduled : JobType
  other : String → JobType

-- Declared in jobconfig_types.go.
pub data ConcurrencyPolicy : Type 0 where
  allow forbid enqueue : ConcurrencyPolicy
  other : String → ConcurrencyPolicy

pub record StartPolicySpec : Type 0 where
  pub concurrency_policy : ConcurrencyPolicy
  pub start_after : Option Time

pub record JobTaskSpec : Type 0 where
  pub template : PodTemplateSpec
  pub pending_timeout_seconds : Option ℤ
  pub forbid_force_deletion : Bool

pub record JobTemplateSpec : Type 0 where
  pub task : JobTaskSpec
  pub max_attempts : Option ℤ
  pub retry_delay_seconds : Option ℤ

pub record JobSpec : Type 0 where
  pub config_name : String
  pub job_type : JobType
  pub start_policy : Option StartPolicySpec
  pub template : Option JobTemplateSpec
  pub option_values : String
  pub substitutions : StringMap
  pub kill_timestamp : Option Time
  pub ttl_seconds_after_finished : Option ℤ

pub data JobPhase : Type 0 where
  queued starting pending running admission_error retry_backoff retrying : JobPhase
  succeeded retry_limit_exceeded pending_timeout deadline_exceeded : JobPhase
  killing killed finished_unknown : JobPhase
  other : String → JobPhase

-- JobPhase.IsTerminal.
unfoldable pub is_terminal : JobPhase → Bool
is_terminal JobPhase.succeeded = true
is_terminal JobPhase.retry_limit_exceeded = true
is_terminal JobPhase.killed = true
is_terminal JobPhase.pending_timeout = true
is_terminal JobPhase.deadline_exceeded = true
is_terminal JobPhase.admission_error = true
is_terminal JobPhase.finished_unknown = true
is_terminal _ = false

pub data JobResult : Type 0 where
  success task_failed pending_timeout deadline_exceeded : JobResult
  admission_error killed final_state_unknown : JobResult
  other : String → JobResult

-- JobResult.IsFailed: membership in AllFailedJobResults.
unfoldable pub is_failed : JobResult → Bool
is_failed JobResult.task_failed = true
is_failed JobResult.pending_timeout = true
is_failed JobResult.deadline_exceeded = true
is_failed JobResult.admission_error = true
is_failed JobResult.killed = true
is_failed _ = false

pub data TaskState : Type 0 where
  staging starting running success failed pending_timeout deadline_exceeded : TaskState
  killing killed deleted_final_state_unknown : TaskState
  other : String → TaskState

pub record TaskStatus : Type 0 where
  pub state : TaskState
  pub result : Option JobResult
  pub reason : String
  pub message : String

pub record TaskContainerState : Type 0 where
  pub exit_code : ℤ
  pub signal : ℤ
  pub reason : String
  pub message : String
  pub container_id : String

pub record TaskRef : Type 0 where
  pub name : String
  pub creation_timestamp : Time
  pub running_timestamp : Option Time
  pub finish_timestamp : Option Time
  pub status : TaskStatus
  pub deleted_status : Option TaskStatus
  pub node_name : String
  pub container_states : List TaskContainerState

-- A message that the program builds by fmt.Sprintf is kept as its format and arguments.
pub data Message : Type 0 where
  literal : String → Message
  sprintf_time : String → Time → Message
  sprintf_counts : String → ℤ → ℤ → Message

pub record JobConditionQueueing : Type 0 where
  pub reason : String
  pub message : Message

pub record JobConditionWaiting : Type 0 where
  pub created_at : Option Time
  pub reason : String
  pub message : Message

pub record JobConditionRunning : Type 0 where
  pub created_at : Time
  pub started_at : Time

pub record JobConditionFinished : Type 0 where
  pub created_at : Option Time
  pub started_at : Option Time
  pub finished_at : Time
  pub result : JobResult
  pub reason : String
  pub message : Message

pub record JobCondition : Type 0 where
  pub queueing : Option JobConditionQueueing
  pub waiting : Option JobConditionWaiting
  pub running : Option JobConditionRunning
  pub finished : Option JobConditionFinished

pub record JobStatus : Type 0 where
  pub phase : JobPhase
  pub condition : JobCondition
  pub start_time : Option Time
  pub created_tasks : ℤ
  pub tasks : List TaskRef

pub record Job : Type 0 where
  pub metadata : ObjectMeta
  pub spec : JobSpec
  pub status : JobStatus
