-- ===== src/Api/Pod.antt =====
-- What the program reads and writes of Kubernetes' pods and pod templates.
use furiko.Prelude.{ℤ, List, Option, String}
use furiko.Ktime.{Time}
use furiko.Meta.{StringMap}
use furiko.Api.Meta.{ObjectMeta}

pub record EnvVar : Type 0 where
  pub name : String
  pub value : String
  pub value_from : Option String

-- `rest` stands for the other fields, which the program copies, and `value_from` of an EnvVar for where
-- its value comes from: texts in a form in which equal quantities are written alike, since
-- Semantic.DeepEqual takes those for equal.
pub record Container : Type 0 where
  pub image : String
  pub env : List EnvVar
  pub command : List String
  pub args : List String
  pub rest : String

pub record PodSpec : Type 0 where
  pub init_containers : List Container
  pub containers : List Container
  pub restart_policy : String
  pub node_name : String
  pub active_deadline_seconds : Option ℤ
  pub rest : String

-- The metadata of a PodTemplateSpec is its labels, annotations and finalizers.
pub record PodTemplateSpec : Type 0 where
  pub labels : StringMap
  pub annotations : StringMap
  pub finalizers : List String
  pub spec : PodSpec

pub data PodPhase : Type 0 where
  pending running succeeded failed : PodPhase
  other : String → PodPhase

pub record ContainerStateWaiting : Type 0 where
  pub reason : String
  pub message : String

pub record ContainerStateRunning : Type 0 where
  pub started_at : Time

pub record ContainerStateTerminated : Type 0 where
  pub exit_code : ℤ
  pub signal : ℤ
  pub reason : String
  pub message : String
  pub started_at : Time
  pub finished_at : Time

pub record ContainerState : Type 0 where
  pub waiting : Option ContainerStateWaiting
  pub running : Option ContainerStateRunning
  pub terminated : Option ContainerStateTerminated

pub record ContainerStatus : Type 0 where
  pub container_id : String
  pub state : ContainerState
  pub last_termination_state : ContainerState

pub data PodConditionType : Type 0 where
  pod_scheduled initialized : PodConditionType
  other : String → PodConditionType

pub data ConditionStatus : Type 0 where
  true_status false_status : ConditionStatus
  other : String → ConditionStatus

pub record PodCondition : Type 0 where
  pub condition_type : PodConditionType
  pub status : ConditionStatus
  pub reason : String
  pub message : String

pub record PodStatus : Type 0 where
  pub phase : PodPhase
  pub reason : String
  pub message : String
  pub start_time : Option Time
  pub conditions : List PodCondition
  pub container_statuses : List ContainerStatus
  pub init_container_statuses : List ContainerStatus

pub record Pod : Type 0 where
  pub metadata : ObjectMeta
  pub spec : PodSpec
  pub status : PodStatus
