-- ===== src/VariableContext.antt =====
-- pkg/execution/variablecontext: the variables of a JobConfig, a Job and a task, and their
-- substitution in the containers of a pod. The TaskTemplate is that of pkg/execution/tasks/interfaces.go.
use furiko.Prelude.{ℤ, List, [], ◌∷◌, ◌++◌, map, Option, none, some, String}
use furiko.Decimal.{itoa}
use furiko.Meta.{StringMap, insert}
use furiko.Api.Job.{Job, JobType, JobTemplateSpec}
use furiko.Api.JobConfig.{JobConfig, CronSchedule}
use furiko.Api.Pod.{PodSpec, PodTemplateSpec, Container, EnvVar}
use furiko.Options.Variables.{substitute_variable_maps}

pub record TaskTemplate : Type 0 where
  pub name : String
  pub retry_index : ℤ
  pub pod_spec : PodSpec

abbrev pub get_all_prefixes : List String
get_all_prefixes = "jobconfig." ∷ "job." ∷ "task." ∷ []

abbrev cron_of : JobConfig → Option CronSchedule
cron_of rjc = elim rjc.spec.schedule [ none ↦ none | some spec ↦ spec.cron ]

unfoldable pub make_variables_from_job_config : JobConfig → StringMap
unfolding insert
make_variables_from_job_config rjc =
    let subs : StringMap =
      ("jobconfig.uid", rjc.metadata.uid)
      ∷ ("jobconfig.name", rjc.metadata.name)
      ∷ ("jobconfig.namespace", rjc.metadata.namespace)
      ∷ [] in
    elim (cron_of rjc) [
      | none ↦ subs
      | some cron ↦
          insert "jobconfig.cron_timezone" cron.timezone
            (insert "jobconfig.cron_schedule" cron.expression subs)
    ]

abbrev job_type_string : JobType → String
job_type_string JobType.adhoc = "Adhoc"
job_type_string JobType.scheduled = "Scheduled"
job_type_string (JobType.other s) = s

abbrev job_variables : Job → JobTemplateSpec → StringMap
job_variables rj template =
    let subs : StringMap =
      ("job.uid", rj.metadata.uid)
      ∷ ("job.name", rj.metadata.name)
      ∷ ("job.namespace", rj.metadata.namespace)
      ∷ ("job.type", job_type_string rj.spec.job_type)
      ∷ [] in
    elim template.max_attempts [
      | none ↦ subs
      | some max_attempts ↦ insert "job.max_attempts" (itoa max_attempts) subs
    ]

-- `none` is the panic on a Job without a template.
unfoldable pub make_variables_from_job : Job → Option StringMap
unfolding insert itoa
make_variables_from_job rj = elim rj.spec.template [
  | none ↦ none
  | some template ↦ some (job_variables rj template)
]

unfoldable pub make_variables_from_task : Job → TaskTemplate → StringMap
unfolding itoa
make_variables_from_task rj task =
    ("task.name", task.name)
    ∷ ("task.namespace", rj.metadata.namespace)
    ∷ ("task.retry_index", itoa task.retry_index)
    ∷ []

abbrev substitute_env_var : (String → String) → EnvVar → EnvVar
substitute_env_var sub env_var = record env_var { value = sub env_var.value }

unfoldable pub substitute_container : Container → (String → String) → Container
substitute_container container sub = record container {
  image = sub container.image;
  env = map (substitute_env_var sub) container.env;
  command = map sub container.command;
  args = map sub container.args;
}

unfoldable pub substitute_pod_spec : PodSpec → (String → String) → PodSpec
unfolding substitute_container
substitute_pod_spec spec sub = record spec {
  init_containers = map (λ container. substitute_container container sub) spec.init_containers;
  containers = map (λ container. substitute_container container sub) spec.containers;
}

abbrev unless_empty : StringMap → List StringMap
unless_empty [] = []
unless_empty (entry ∷ m) = (entry ∷ m) ∷ []

-- `none` is the panic on a Job without a template.
unfoldable pub substitute_pod_template_spec_for_job : Job → Option PodTemplateSpec
unfolding make_variables_from_job substitute_pod_spec substitute_variable_maps
substitute_pod_template_spec_for_job rj = elim rj.spec.template [
  | none ↦ none
  | some job_template ↦
      let template = job_template.task.template in
      let sub_maps = unless_empty rj.spec.substitutions ++ job_variables rj job_template ∷ [] in
      some (record template {
        spec =
            substitute_pod_spec template.spec
              (λ s. substitute_variable_maps s sub_maps ("job." ∷ []));
      })
]

unfoldable pub substitute_pod_spec_for_task : Job → TaskTemplate → PodSpec
unfolding make_variables_from_task substitute_pod_spec substitute_variable_maps
substitute_pod_spec_for_task rj template =
    let sub_maps =
      unless_empty rj.spec.substitutions ++ make_variables_from_task rj template ∷ [] in
    substitute_pod_spec template.pod_spec
      (λ s. substitute_variable_maps s sub_maps (get_all_prefixes ++ "option." ∷ []))
