-- ===== src/Collectors/Agent/Tasks.antt =====
-- The lookups of collectors/mesos/agent/agent.go: containers to tasks, ids to frameworks, executors
-- and tasks, and the labels of a container.
pub mod Laws
use dcos_metrics.Prelude.{
  ℕ, String, Bool, false, Option, none, some, List, [], ◌∷◌, ◌==◌, if◌then◌else◌, Dict, lookup,
  insert, find?, ltb, zero, suc, ◌+◌, ◌-◌, ◌≤◌, ◌<◌, ◌≡◌, refl, sym, ap, ◌∙◌, ◌≢◌, ◌⊎◌, inl, inr,
  true, ◌&&◌, ◌||◌, not, ◌++◌, arith, eq_iff, byte_length,
}
use dcos_metrics.Collectors.Agent.{
  TaskInfo, AgentState, ExecutorInfo, FrameworkInfo, KeyValue, TaskStatusInfo,
}
use dcos_metrics.Collectors.{is_cosmos}

-- `ContainerTaskRels`, without its lock: each method runs under it as a whole.
abbrev pub ContainerTaskRels : Type 0
ContainerTaskRels = Dict TaskInfo

-- `Get` and `Set`; `none` is nil.
unfoldable pub get : ContainerTaskRels → String → Option TaskInfo
get ctr container_id = lookup container_id ctr

unfoldable pub set : ContainerTaskRels → String → TaskInfo → ContainerTaskRels
set ctr container_id info = insert container_id info ctr

-- The four nested loops of `update`, from the inside.
abbrev pub task_info : TaskInfo → TaskInfo
task_info t = record t { statuses = [] }

unfoldable pub update_statuses :
    TaskInfo → List TaskStatusInfo → ContainerTaskRels → ContainerTaskRels
update_statuses t [] rels = rels
update_statuses t (s ∷ ss) rels = update_statuses t ss (insert s.container_id (task_info t) rels)

unfoldable pub update_tasks : List TaskInfo → ContainerTaskRels → ContainerTaskRels
update_tasks [] rels = rels
update_tasks (t ∷ ts) rels = update_tasks ts (update_statuses t t.statuses rels)

unfoldable pub update_executors : List ExecutorInfo → ContainerTaskRels → ContainerTaskRels
update_executors [] rels = rels
update_executors (e ∷ es) rels = update_executors es (update_tasks e.tasks rels)

unfoldable pub update_frameworks : List FrameworkInfo → ContainerTaskRels → ContainerTaskRels
update_frameworks [] rels = rels
update_frameworks (f ∷ fs) rels = update_frameworks fs (update_executors f.executors rels)

-- The old map is dropped.
unfoldable pub update : AgentState → ContainerTaskRels → ContainerTaskRels
update state ctr = update_frameworks state.frameworks []

unfoldable pub get_framework_info_by_framework_id :
    String → List FrameworkInfo → Option FrameworkInfo
get_framework_info_by_framework_id framework_id =
    find? (λ (f : FrameworkInfo). f.id == framework_id)

unfoldable pub get_executor_info_by_executor_id : String → List ExecutorInfo → Option ExecutorInfo
get_executor_info_by_executor_id executor_id = find? (λ (e : ExecutorInfo). e.id == executor_id)

-- Only a task's first status is looked at.
unfoldable pub first_status_is : String → TaskInfo → Bool
first_status_is container_id t = elim t.statuses [
  | [] ↦ false
  | s ∷ ss ↦ s.container_id == container_id
]

unfoldable pub get_task_info_by_container_id : String → List TaskInfo → Option TaskInfo
get_task_info_by_container_id container_id = find? (first_status_is container_id)

abbrev pub max_label_length : ℕ
max_label_length = 128

-- The loop over the labels of the executor that was found.
unfoldable pub add_labels : List KeyValue → Dict String → Dict String
add_labels [] labels = labels
add_labels (pair ∷ r) labels = add_labels r (
    if is_cosmos pair.key
    then labels
    else if ltb max_label_length (byte_length pair.value)
    then labels
    else insert pair.key pair.value labels)

-- The first executor of the container in a framework; the loops return from there.
unfoldable pub find_container : String → List FrameworkInfo → Option ExecutorInfo
find_container container_id [] = none
find_container container_id (f ∷ fs) =
    let rest = find_container container_id fs in
    elim (find? (λ (e : ExecutorInfo). e.container == container_id) f.executors) [
      | none ↦ rest
      | some e ↦ some e
    ]

unfoldable pub get_labels_by_container_id : String → List FrameworkInfo → Dict String
get_labels_by_container_id container_id frameworks = elim (find_container container_id frameworks) [
  | none ↦ []
  | some e ↦ add_labels e.labels []
]
