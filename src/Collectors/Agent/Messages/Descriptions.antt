-- ===== src/Collectors/Agent/Messages/Descriptions.antt =====
-- What a message of collectors/mesos/agent/agent.go says of its container.
use dcos_metrics.Prelude.{
  String, ◌≡◌, refl, ap, inl, inr, Bool, true, Option, none, some, List, [], ◌∷◌, arith, ◌==◌,
  eq_iff, find?, Bool-cases, Option-cases, ap₂,
}
use dcos_metrics.Collectors.Agent.Datapoints.{Printing, create_container_datapoints}
use dcos_metrics.Collectors.Agent.Messages.{Collector, message_of, dimensions_of, with_task}
use mathlib.Core.Path.{subst}
use dcos_metrics.Collectors.Agent.{AgentContainer, FrameworkInfo, ExecutorInfo, TaskInfo}
use dcos_metrics.Producers.{MetricsMessage, container_metric_prefix, Dimensions, Datapoint}
use dcos_metrics.Collectors.Agent.Tasks.{
  get_labels_by_container_id, get_framework_info_by_framework_id, get_executor_info_by_executor_id,
  get_task_info_by_container_id,
}

find?-sound {ℓ} : {A : Type ℓ} (p : A → Bool) (l : List A) {a : A} → find? p l ≡ some a → p a ≡ true
unfolding find?
find?-sound p [] e = cc
find?-sound p (x ∷ l) {a} e = elim (Bool-cases (p x)) [
  | inl h ↦ let same : x ≡ a = ground (arith, h) in subst (λ y. p y ≡ true) same h
  | inr h ↦ find?-sound p l (ground (arith, h))
]

-- The task's names are all that a task adds.
abbrev task_blank : Dimensions → Dimensions
task_blank d = record d { task_id = ""; task_name = "" }

with_task-rest : (t : Option TaskInfo) (d : Dimensions) → task_blank (with_task t d) ≡ task_blank d
with_task-rest none d = refl
with_task-rest (some t) d = refl

-- The names that the message has of the task.
abbrev pub task_names : Option TaskInfo → String × String
task_names none = ("", "")
task_names (some t) = (t.id, t.name)

with_task-names :
    (t : Option TaskInfo) (d : Dimensions)
    → d.task_id ≡ ""
    → d.task_name ≡ ""
    → (Dimensions.task_id (with_task t d), Dimensions.task_name (with_task t d)) ≡ task_names t
with_task-names none d e f = ap₂ (λ x y. (x, y)) e f
with_task-names (some t) d e f = refl

find_framework :
    (id : String) (l : List FrameworkInfo) {f : FrameworkInfo}
    → get_framework_info_by_framework_id id l ≡ some f
    → (f.id == id) ≡ true
unfolding get_framework_info_by_framework_id
find_framework id l e = find?-sound (λ (f : FrameworkInfo). f.id == id) l e

find_executor :
    (id : String) (l : List ExecutorInfo) {x : ExecutorInfo}
    → get_executor_info_by_executor_id id l ≡ some x
    → (x.id == id) ≡ true
unfolding get_executor_info_by_executor_id
find_executor id l e = find?-sound (λ (x : ExecutorInfo). x.id == id) l e

module _ (print : Printing) (ts : String) (c : Collector) where
  -- What the message of a container says of it.
  pub record Describes (cm : AgentContainer) (m : MetricsMessage) : Type 0 where
    pub datapoints : create_container_datapoints print cm ts ≡ some m.datapoints
    pub name : m.name ≡ container_metric_prefix
    pub time : m.timestamp ≡ c.timestamp
    pub container : m.dimensions.container_id ≡ cm.container_id
    pub node : m.dimensions.mesos_id ≡ c.node_info.mesos_id
    pub labels :
        m.dimensions.labels ≡ get_labels_by_container_id cm.container_id c.agent_state.frameworks
    pub framework : FrameworkInfo
    pub framework_found :
        get_framework_info_by_framework_id cm.framework_id c.agent_state.frameworks ≡ some framework
    pub framework_id : framework.id ≡ cm.framework_id
    pub framework_name : m.dimensions.framework_name ≡ framework.name
    pub executor : ExecutorInfo
    pub executor_found :
        get_executor_info_by_executor_id cm.executor_id framework.executors ≡ some executor
    pub executor_id : executor.id ≡ cm.executor_id
    pub task :
        (m.dimensions.task_id, m.dimensions.task_name)
        ≡ task_names (get_task_info_by_container_id cm.container_id executor.tasks)

  abbrev pub built : AgentContainer → List Datapoint → FrameworkInfo → ExecutorInfo → MetricsMessage
  built cm dps fi ei = record {
    name = container_metric_prefix;
    datapoints = dps;
    dimensions = dimensions_of print ts c cm fi ei;
    timestamp = c.timestamp;
  }

  built-Describes :
      (cm : AgentContainer) (dps : List Datapoint) (fi : FrameworkInfo) (ei : ExecutorInfo)
      → create_container_datapoints print cm ts ≡ some dps
      → get_framework_info_by_framework_id cm.framework_id c.agent_state.frameworks ≡ some fi
      → get_executor_info_by_executor_id cm.executor_id fi.executors ≡ some ei
      → Describes cm (built cm dps fi ei)
  unfolding dimensions_of
  built-Describes cm dps fi ei made f g =
      let task = get_task_info_by_container_id cm.container_id ei.tasks in
      record {
        datapoints = made;
        name = refl;
        time = refl;
        container = ap (λ (d : Dimensions). d.container_id) (with_task-rest task _);
        node = ap (λ (d : Dimensions). d.mesos_id) (with_task-rest task _);
        labels = ap (λ (d : Dimensions). d.labels) (with_task-rest task _);
        framework = fi;
        framework_found = f;
        framework_id =
            (eq_iff fi.id cm.framework_id).0
              (find_framework cm.framework_id c.agent_state.frameworks f);
        framework_name = ap (λ (d : Dimensions). d.framework_name) (with_task-rest task _);
        executor = ei;
        executor_found = g;
        task = with_task-names task _ refl refl;
        executor_id = (eq_iff ei.id cm.executor_id).0 (find_executor cm.executor_id fi.executors g);
      }

  -- The message of a container describes it: its datapoints, the time of the poll, its node, its
  -- labels, and a framework and an executor that the agent's state lists under the container's ids.
  pub message_of-Describes :
      (cm : AgentContainer) (m : MetricsMessage)
      → message_of print ts c cm ≡ some m
      → Describes cm m
  unfolding message_of
  message_of-Describes cm m e = elim (Option-cases (create_container_datapoints print cm ts)) [
    | inl n ↦ absurd (ground (arith, n))
    | inr (dps, made) ↦
        elim (Option-cases
          (get_framework_info_by_framework_id cm.framework_id c.agent_state.frameworks)) [
            | inl n ↦ absurd (ground (arith, n, made))
            | inr (fi, f) ↦
                elim (Option-cases (get_executor_info_by_executor_id cm.executor_id fi.executors)) [
                  | inl n ↦ absurd (ground (arith, n, made, f))
                  | inr (ei, g) ↦
                      let same : built cm dps fi ei ≡ m = ground (arith, made, f, g) in
                      subst (Describes cm) same (built-Describes cm dps fi ei made f g)
                ]
          ]
  ]
