-- ===== src/Collectors/Agent/Messages.antt =====
-- collectors/mesos/agent/agent.go: one poll of the agent, and the messages that are made of it.
pub mod Descriptions
pub mod Laws
use dcos_metrics.Prelude.{
  ◌>>=◌, ℕ, zero, suc, ◌+◌, ◌-◌, ◌≤◌, ◌<◌, String, ◌≡◌, refl, sym, ap, ◌∙◌, ◌≢◌, ◌⊎◌, inl, inr,
  Bool, true, false, ◌&&◌, ◌||◌, not, Option, none, some, List, [], ◌∷◌, ◌++◌, arith, ◌==◌, eq_iff,
  if◌then◌else◌,
}
use dcos_metrics.Collectors.Agent.{
  AgentState, TaskInfo, AgentContainer, FrameworkInfo, ExecutorInfo,
}
use dcos_metrics.Collectors.{NodeInfo}
use dcos_metrics.Collectors.Agent.Datapoints.{Printing, create_container_datapoints}
use dcos_metrics.Prelude.Int.{ℤ}
use dcos_metrics.Collectors.Agent.Tasks.{
  update, ContainerTaskRels, get_task_info_by_container_id, get_framework_info_by_framework_id,
  get_labels_by_container_id, get_executor_info_by_executor_id,
}
use dcos_metrics.Producers.{MetricsMessage, Dimensions, container_metric_prefix}

-- What `client.Fetch` leaves behind: what decoding the answer made of the target, or an error that left the target as it was.
pub data Fetched {ℓ} (A : Type ℓ) : Type ℓ where
  answered : A → Fetched A
  failed : Fetched A

unfoldable pub or_kept {ℓ} : {A : Type ℓ} → Fetched A → A → A
or_kept (answered a) old = a
or_kept failed old = old

abbrev pub no_state : AgentState
no_state = record { id = ""; hostname = ""; frameworks = [] }

-- The fields of `Collector` that a poll reads or writes. `HTTPClient`, its timeout and the settings
-- that only make up a URL are not modelled.
pub record Collector : Type 0 where
  pub node_info : NodeInfo
  pub agent_state : AgentState
  pub container_metrics : List AgentContainer
  pub timestamp : ℤ
  pub container_task_rels : ContainerTaskRels

-- `getAgentState` drops the old state first; `getContainerMetrics` keeps what it had.
unfoldable pub get_agent_state : Fetched AgentState → Collector → Collector
get_agent_state answer c = record c { agent_state = or_kept answer no_state }

unfoldable pub get_container_metrics : Fetched (List AgentContainer) → Collector → Collector
get_container_metrics answer c = record c { container_metrics = or_kept answer c.container_metrics }

-- `pollMesosAgent`, at `now` seconds since the epoch.
unfoldable pub poll_mesos_agent :
    ℤ → Fetched AgentState → Fetched (List AgentContainer) → Collector → Collector
poll_mesos_agent now state containers c =
    let c₁ = get_agent_state state (record c { timestamp = now }) in
    let c₂ = record c₁ { container_task_rels = update c₁.agent_state c₁.container_task_rels } in
    get_container_metrics containers c₂

abbrev pub with_task : Option TaskInfo → Dimensions → Dimensions
with_task none d = d
with_task (some t) d = record d { task_id = t.id; task_name = t.name }

module _ (print : Printing) (ts : String) where
  unfoldable pub dimensions_of :
      Collector → AgentContainer → FrameworkInfo → ExecutorInfo → Dimensions
  dimensions_of c cm fi ei =
      with_task (get_task_info_by_container_id cm.container_id ei.tasks) (record {
        mesos_id = c.node_info.mesos_id;
        cluster_id = c.node_info.cluster_id;
        container_id = cm.container_id;
        executor_id = cm.executor_id;
        framework_name = fi.name;
        framework_id = cm.framework_id;
        framework_role = fi.role;
        framework_principal = fi.principal;
        task_name = "";
        task_id = "";
        hostname = c.node_info.hostname;
        labels = get_labels_by_container_id cm.container_id c.agent_state.frameworks;
      })

  -- The body of the loop of `metricsMessages`; `none` is its `continue`.
  unfoldable pub message_of : Collector → AgentContainer → Option MetricsMessage
  message_of c cm = do
    datapoints ← create_container_datapoints print cm ts
    fi ← get_framework_info_by_framework_id cm.framework_id c.agent_state.frameworks
    ei ← get_executor_info_by_executor_id cm.executor_id fi.executors
    some (record {
      name = container_metric_prefix;
      datapoints = datapoints;
      dimensions = dimensions_of c cm fi ei;
      timestamp = c.timestamp;
    })

-- The loop of `metricsMessages`; `thisTime` is asked anew for each container, so there is a time for each round.
unfoldable pub messages_of :
    Printing → (ℕ → String) → Collector → List AgentContainer → List MetricsMessage
messages_of print this_time c [] = []
messages_of print this_time c (cm ∷ cms) =
    let rest = messages_of print (λ n. this_time (suc n)) c cms in
    elim (message_of print (this_time 0) c cm) [ none ↦ rest | some m ↦ m ∷ rest ]

unfoldable pub metrics_messages : Printing → (ℕ → String) → Collector → List MetricsMessage
metrics_messages print this_time c = messages_of print this_time c c.container_metrics
