-- ===== src/PodTask/Create.antt =====
-- podtaskexecutor: name.go, labels.go, pod.go and pod_client.go, how the pod of a task is made.
use furiko.Prelude.{
  ℤ, Bool, true, false, List, [], ◌∷◌, Option, none, some, String, str_append, ◌≡◌, str_eq, eq_refl,
  arith, IsInt64, pos, if◌then◌else◌,
}
use text.Mathlib.TextLemmas.{append_cancel_left}
use furiko.Ktime.{zero_time}
use furiko.Decimal.{itoa, atoi-itoa, itoa-injective}
use furiko.Meta.{StringMap, lookup, insert, lookup-insert}
use furiko.Api.Meta.{OwnerReference, label_key_job_uid, label_key_task_retry_index}
use furiko.Api.Job.{Job}
use furiko.Api.Pod.{Pod, PodPhase, PodTemplateSpec}
use furiko.VariableContext.{substitute_pod_spec_for_task}
use furiko.PodTask.Status.{get_retry_index}

unfoldable pub get_pod_indexed_name : String → ℤ → String
unfolding itoa
get_pod_indexed_name name index = str_append name (str_append "." (itoa index))

unfoldable pub label_pods_for_job : Job → StringMap
label_pods_for_job rj = (label_key_job_uid, rj.metadata.uid) ∷ []

-- The additional labels replace those of the template.
unfoldable pub make_labels : Job → ℤ → PodTemplateSpec → StringMap
unfolding insert itoa
make_labels rj index template =
    insert label_key_task_retry_index (itoa index)
      (insert label_key_job_uid rj.metadata.uid template.labels)

unfoldable pub make_annotations : PodTemplateSpec → StringMap
make_annotations template = template.annotations

unfoldable pub make_finalizers : PodTemplateSpec → List String
make_finalizers template = template.finalizers

abbrev empty_template : PodTemplateSpec
empty_template = record {
  labels = [];
  annotations = [];
  finalizers = [];
  spec = record {
    init_containers = [];
    containers = [];
    restart_policy = "";
    node_name = "";
    active_deadline_seconds = none;
    rest = "";
  };
}

abbrev template_of : Job → PodTemplateSpec
template_of rj = elim rj.spec.template [
  | none ↦ empty_template
  | some job_template ↦ job_template.task.template
]

-- metav1.NewControllerRef.
abbrev controller_ref : Job → OwnerReference
controller_ref rj = record {
  kind = "Job";
  name = rj.metadata.name;
  uid = rj.metadata.uid;
  controller = some true;
}

-- The error of NewPod is always nil. What the API server fills in is zero.
unfoldable pub new_pod : Job → ℤ → Pod
unfolding get_pod_indexed_name make_labels make_annotations make_finalizers
    substitute_pod_spec_for_task
new_pod rj index =
    let template = template_of rj in
    let pod_name = get_pod_indexed_name rj.metadata.name index in
    record {
      metadata = record {
        name = pod_name;
        namespace = rj.metadata.namespace;
        uid = "";
        labels = make_labels rj index template;
        annotations = make_annotations template;
        finalizers = make_finalizers template;
        owner_references = controller_ref rj ∷ [];
        creation_timestamp = zero_time;
        deletion_timestamp = none;
      };
      spec =
          substitute_pod_spec_for_task rj
            (record { name = pod_name; retry_index = index; pod_spec = template.spec });
      status = record {
        phase = PodPhase.other "";
        reason = "";
        message = "";
        start_time = none;
        conditions = [];
        container_statuses = [];
        init_container_statuses = [];
      };
    }

-- What the API server answers to a request to create a pod.
pub data CreateAnswer : Type 0 where
  created : Pod → CreateAnswer
  invalid : String → CreateAnswer
  error : String → CreateAnswer

pub data CreateResult : Type 0 where
  task : Pod → CreateResult
  admission_refused : String → CreateResult
  could_not_create : String → CreateResult

abbrev result_of_answer : CreateAnswer → CreateResult
result_of_answer (created pod) = task pod
result_of_answer (invalid message) = admission_refused message
result_of_answer (error message) = could_not_create message

unfoldable pub create_index : (Pod → CreateAnswer) → Job → ℤ → CreateResult
unfolding new_pod
create_index create rj index = result_of_answer (create (new_pod rj index))

-- `get` is the request or the cache that answers a pod by its name; `none` is an error.
unfoldable pub index_task : (String → Option Pod) → Job → ℤ → Option Pod
unfolding get_pod_indexed_name
index_task get rj index = get (get_pod_indexed_name rj.metadata.name index)

-- `list` is the lister, by the namespace and the labels.
unfoldable pub list_tasks : (String → StringMap → Option (List Pod)) → Job → Option (List Pod)
unfolding label_pods_for_job
list_tasks list rj = list rj.metadata.namespace (label_pods_for_job rj)

-- The grace period that Delete asks for; `none` leaves the pod's own.
unfoldable pub delete_grace_period : Bool → Option ℤ
delete_grace_period force = if force then some (pos 0) else none

-- The retry index that a pod was made with is read back from it, if it is an int64.
pub get_retry_index-new_pod :
    (rj : Job) (index : ℤ) → IsInt64 index → get_retry_index (new_pod rj index) ≡ some index
unfolding get_retry_index new_pod make_labels
get_retry_index-new_pod rj index fits =
    let labels = insert label_key_job_uid rj.metadata.uid (template_of rj).labels in
    ground (
      arith,
      lookup-insert label_key_task_retry_index label_key_task_retry_index (itoa index) labels,
      eq_refl label_key_task_retry_index,
      atoi-itoa index fits,
    )

-- Does the lister of a Job's tasks select these labels?
abbrev pub has_labels : StringMap → StringMap → Bool
has_labels [] labels = true
has_labels ((k, v) ∷ selector) labels = elim (lookup k labels) [
  | none ↦ false
  | some w ↦ if str_eq w v then has_labels selector labels else false
]

-- The labels of each pod that is made for a Job are those by which the Job's tasks are listed.
pub new_pod-has_labels :
    (rj : Job) (index : ℤ)
    → has_labels (label_pods_for_job rj) (new_pod rj index).metadata.labels ≡ true
unfolding new_pod make_labels label_pods_for_job
new_pod-has_labels rj index = ground (
  arith,
  lookup-insert label_key_task_retry_index label_key_job_uid (itoa index)
      (insert label_key_job_uid rj.metadata.uid (template_of rj).labels),
  lookup-insert label_key_job_uid label_key_job_uid rj.metadata.uid (template_of rj).labels,
  eq_refl label_key_job_uid,
  eq_refl rj.metadata.uid,
)

-- The pods of two attempts of a Job have different names.
pub get_pod_indexed_name-injective :
    (name : String) (i j : ℤ)
    → IsInt64 i
    → IsInt64 j
    → get_pod_indexed_name name i ≡ get_pod_indexed_name name j
    → i ≡ j
unfolding get_pod_indexed_name
get_pod_indexed_name-injective name i j fits fits' e = itoa-injective i j fits fits' (
    append_cancel_left "." (itoa i) (itoa j)
      (append_cancel_left name (str_append "." (itoa i)) (str_append "." (itoa j)) e))
