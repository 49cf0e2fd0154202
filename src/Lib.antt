-- ===== src/Lib.antt =====
-- Furiko, a job scheduler for Kubernetes: a model of its execution controllers.
--
-- The program keeps Jobs and JobConfigs in the Kubernetes API server. A JobConfig is a template with a
-- cron schedule and a concurrency policy; a Job is one run, whose tasks are attempts, each a Pod. The
-- controllers work on these objects only:
--   * the cron controller enqueues the schedules of a JobConfig that are due, for a Job each;
--   * the job queue controller starts the queued Jobs of a JobConfig, as their start policy and the
--     count of active Jobs allow. It takes a slot by CheckAndAdd of the active job store before it
--     writes the start time, and gives it back if the write fails;
--   * the active job store counts the active Jobs by the UID of their JobConfig, from the
--     notifications of the informer and from CheckAndAdd;
--   * the job controller makes the tasks of started Jobs, kills and deletes them, and computes the
--     status of a Job from its tasks;
--   * before a Job or a JobConfig is stored, admission webhooks fill in its defaults (mutation) and
--     check it (validation); there a Job that names a JobConfig takes over the JobConfig's template,
--     and the values of its options become substitutions;
--   * a task is a Pod, which the pod task executor makes, kills and reads;
--   * the JobConfig controller writes the status of a JobConfig from its Jobs, with the last schedule
--     from which the cron controller goes on after a restart.
--
-- The modules, and the code that each models (paths from the repository's root):
--   * Prelude: shared names; Int has the integers with the wrap-around of int64, Lists the loops.
--   * Decimal: strconv.Itoa and strconv.Atoi. Equality: apiequality.Semantic.DeepEqual at the types at
--     which it is called. FieldError: field.Path and field.Error, without their texts.
--   * Ktime: pkg/utils/ktime/time.go, pkg/utils/time/time.go and what they use of Go's package time.
--     A time is a number of nanoseconds since Go's zero time, nil is `none`.
--   * Meta: pkg/utils/meta (annotations.go, finalizers.go); a map is an association list.
--   * Api: apis/execution/v1alpha1 (job_types.go, jobconfig_types.go) and
--     apis/config/v1alpha1/dynamicconfig_types.go, with the fields that the modelled code reads, and
--     what it reads of pods.
--   * Tasks: pkg/execution/tasks/interfaces.go, what the getters of a task answer.
--   * JobUtil: pkg/execution/util/job. Queries is active.go, job_utils.go and task_utils.go (IsActive,
--     AllowedToCreateNewTask, GetNextAllowedRetry, ...), Condition is condition.go and phase.go
--     (GetCondition, GetPhase), Timeout is timeout.go, TaskRefs is task_status.go (GenerateTaskRefs).
--   * JobController: pkg/execution/controllers/jobcontroller. Status is UpdateJobStatusFromTaskRefs and
--     updateTaskRefStatus of reconciler.go; Writes is what a sync asks of the API server
--     (setTasksKillTimestamp, deleteTasks), Creation syncCreateNewTask, Killing handlePendingTasks and
--     handleKillJob, Deleting the handlers that delete tasks and Jobs, and Sync is syncJobTasks and
--     sync, composed of them.
--   * Store: pkg/execution/stores/activejobstore/store.go (CheckAndAdd, Delete, OnUpdate, OnDelete,
--     Recover), over Counter, pkg/utils/atomic/counter.go. Cluster is a step relation: the store, the
--     Jobs that the informer has reported, and the starts that it has not reported yet. A label that
--     changes, a Job that is created active, and a start that is reported as ended are no events of it.
--   * JobQueue: pkg/execution/controllers/jobqueuecontroller. SyncOne, canStartJob and startJob of
--     reconciler_perjobconfig.go, StartJob and RejectJob of control.go; Independent is
--     reconciler_independent.go.
--   * Cron: pkg/execution/controllers/croncontroller, GetNextScheduleTime and BumpNextScheduleTime of
--     schedule.go and syncOne of cron_worker.go. Keys is util.go (JoinJobConfigKeyName and its inverse),
--     Reconcile is reconciler.go and control.go (processCronForConfig, CreateJob).
--   * JobConfigController: pkg/execution/controllers/jobconfigcontroller, the status that SyncOne of
--     reconciler.go writes, with GetState and GetLastScheduleTime of pkg/execution/util/jobconfig.
--   * JobConfigUtil: pkg/execution/util/jobconfig, job.go (NewJobFromJobConfig), name.go and the owner
--     lookup of job_utils.go (ValidateLookupJobOwner).
--   * PodTask: pkg/execution/taskexecutor/podtaskexecutor. Util is util.go, Status, Reason, Ref and Kill
--     are pod_task.go (GetState, GetResult, GetFinishTimestamp; GetReasonMessage; GetTaskRef;
--     SetKillTimestamp), Create is pod.go, name.go, labels.go and the requests of pod_client.go.
--   * Options: pkg/core/options. Options itself is EvaluateOptions and what it calls, Defaults
--     MakeDefaultOptions and DefaultOptionSpec, Validate ValidateOptionSpec, Variables variables.go and
--     parameters.go.
--   * VariableContext: pkg/execution/variablecontext, the variables and their substitution in a pod.
--   * Validation: pkg/execution/validation/validation.go with pkg/core/validation/generic.go; Schedule has
--     the checks of a JobConfig, Update those of an update of a Job.
--   * Mutation: pkg/execution/mutation, and Result of pkg/runtime/webhook/result.go.
--   * Webhook: the handlers of the four webhooks of pkg/execution/webhooks, over pkg/utils/cmp/cmp.go.
--   * Reconciler: pkg/runtime/reconciler/controller.go, the work on one key of the work queue.
--   * Limits: what the concurrency policies and the limit of queued Jobs mean, apart from the code.
--   * Samples and Examples: small inputs, and the theorems applied to them.
--
-- What the model takes as given: a write to the API server is a parameter that says how it ends, and
-- is logged; so are the lister, the cron library's Next, the database of time zones and fmt.Sprintf.
-- What other routines do to the store before a CheckAndAdd, between it and the end of the write of the
-- start, and from there to the next reading of the count are any functions. A task's own write answers
-- the task as it is afterwards, and the later handlers of the sync see that one. A sync reads the clock once. `sort.Slice` is an insertion sort; it leaves equal elements
-- in some order, as Go's leaves them in one that is not specified. Deep copies are the identity.
--
-- Bounds: counts are theorems about fewer than 2^62 Jobs and starts, far from the wrap-around of the
-- int64 counter. A duration in seconds wraps around in Go once it passes 292 years, and the model
-- wraps around with it. All loops are structural: over a list, or over the limit of missed schedules,
-- so no fuel is used.
--
-- A decimal number is printed with at most 19 digits, enough for an int64, and a duration has fewer than
-- 2^34 seconds, which bounds the search for the float64 that its seconds are converted to. An int of Go
-- has 64 bits. Maps are visited in the order of their list, where Go takes any.
--
-- Also taken as given: Kubernetes' checks of a PodTemplateSpec, the cron parser and the time zones, JSON,
-- its patches and YAML, the hash of an OptionSpec, the date libraries, and, of the rate-limited queue of
-- client-go, the number of requeues of a key. A field error keeps its kind and path, and not its text.
-- The fields of a pod that the program only copies and compares are texts, in a form in which equal
-- quantities are written alike.
--
-- Not modelled: the HTTP server of the webhooks, the loop of the cron worker over all JobConfigs,
-- informers and event handlers, leader election, configuration loading and generated code; they are glue
-- around client-go and other libraries.
pub mod Prelude
pub mod Ktime
pub mod Meta
pub mod Api
pub mod Tasks
pub mod JobUtil
pub mod JobController
pub mod Store
pub mod Samples
pub mod Examples
pub mod JobQueue
pub mod Cron
pub mod Decimal
pub mod FieldError
pub mod VariableContext
pub mod Webhook
pub mod JobConfigUtil
pub mod Equality
pub mod Validation
pub mod Mutation
pub mod Reconciler
pub mod PodTask
pub mod Options
pub mod JobConfigController
pub mod Limits
