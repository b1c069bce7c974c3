-- ===== src/Tests/Agent.antt =====
-- Examples of collectors/mesos/agent.
use dcos_metrics.Collectors.Agent.Tasks.{
  get_framework_info_by_framework_id, find_container, get_executor_info_by_executor_id,
  get_labels_by_container_id, add_labels,
}
use dcos_metrics.Collectors.Agent.Messages.{
  answered, failed, metrics_messages, Collector, poll_mesos_agent, dimensions_of, or_kept,
  messages_of, message_of, get_container_metrics, get_agent_state,
}
use dcos_metrics.Prelude.{
  ◌≡◌, refl, inl, some, List, [], ◌∷◌, ◌++◌, Elem, lookup, All, find?, insert, byte_length, ℕ,
  String,
}
use dcos_metrics.Producers.{Datapoint, MetricsMessage, container_metric_prefix}
use dcos_metrics.Collectors.Agent.{
  AgentContainer, AgentState, ResourceStatistics, TaskInfo, FrameworkInfo, IoDeviceStats,
  ExecutorInfo,
}
use dcos_metrics.Collectors.Agent.Datapoints.{
  Printing, create_container_datapoints, add_dps, container_tags, blkio_datapoints,
}
use dcos_metrics.Collectors.{is_cosmos}
use dcos_metrics.Collectors.Agent.Messages.Laws.{poll_failed_restamps, metrics_messages_complete}
use dcos_metrics.Collectors.Agent.Datapoints.Laws.{IsOf, create_container_datapoints-IsOf}
use dcos_metrics.Prelude.Int.{pos}
use dcos_metrics.Collectors.Agent.Messages.Descriptions.{Describes}

abbrev pub print : Printing
print = record { decimal = λ n. "8"; to_lower = λ s. s }

abbrev pub time : ℕ → String
time n = "now"

abbrev job : TaskInfo
job = record {
  id = "t1";
  name = "job";
  labels = [];
  statuses = record { container_id = "web" } ∷ [];
}

abbrev executor : ExecutorInfo
executor = record {
  id = "e1";
  name = "ex";
  container = "web";
  labels =
      record { key = "team"; value = "a" }
      ∷ record { key = "DCOS_PACKAGE_SOURCE"; value = "x" }
      ∷ [];
  tasks = job ∷ [];
}

abbrev framework : FrameworkInfo
framework = record {
  id = "f1";
  name = "marathon";
  principal = "p";
  role = "r";
  executors = executor ∷ [];
}

abbrev pub state : AgentState
state = record { id = "m1"; hostname = "h1"; frameworks = framework ∷ [] }

abbrev device : IoDeviceStats
device = record {
  major = 8;
  minor = 0;
  serviced = record { operation = "READ"; value = 3 } ∷ [];
  service_bytes = [];
  service_time = [];
  merged = [];
  queued = [];
  wait_time = [];
}

abbrev statistics : ResourceStatistics
statistics = record {
  processes = 1;
  threads = 2;
  cpus_user_time_secs = 0;
  cpus_system_time_secs = 0;
  cpus_limit = 0;
  cpus_nr_periods = 0;
  cpus_nr_throttled = 0;
  cpus_throttled_time_secs = 0;
  mem_total_bytes = 1024;
  mem_total_memsw_bytes = 0;
  mem_limit_bytes = 0;
  mem_soft_limit_bytes = 0;
  mem_cache_bytes = 0;
  mem_rss_bytes = 0;
  mem_mapped_file_bytes = 0;
  mem_swap_bytes = 0;
  mem_unevictable_bytes = 0;
  mem_low_pressure_counter = 0;
  mem_medium_pressure_counter = 0;
  mem_critical_pressure_counter = 0;
  disk_limit_bytes = 0;
  disk_used_bytes = 0;
  net_rx_packets = 7;
  net_rx_bytes = 700;
  net_rx_errors = 0;
  net_rx_dropped = 0;
  net_tx_packets = 9;
  net_tx_bytes = 900;
  net_tx_errors = 0;
  net_tx_dropped = 0;
  blkio = some (record { cfq = device ∷ []; cfq_recursive = []; throttling = [] });
}

abbrev pub container : AgentContainer
container = record {
  framework_id = "f1";
  executor_id = "e1";
  executor_name = "ex";
  source = "s";
  container_id = "web";
  statistics = some statistics;
}

abbrev pub collector : Collector
collector = record {
  node_info = record {
    ip_address = "10.0.0.1";
    mesos_id = "m1";
    cluster_id = "k";
    hostname = "h1";
    leader = "";
  };
  agent_state = state;
  container_metrics = container ∷ [];
  timestamp = pos 100;
  container_task_rels = [];
}

found_container : find_container "web" (framework ∷ []) ≡ some executor
unfolding find_container find?
found_container = refl

team_label : lookup "team" (get_labels_by_container_id "web" (framework ∷ [])) ≡ some "a"
unfolding lookup get_labels_by_container_id find_container find? add_labels is_cosmos insert
    byte_length
team_label = refl

abbrev datapoints : List Datapoint
datapoints =
    add_dps (container_tags container) "now" statistics
    ++ blkio_datapoints print statistics.blkio (container_tags container) "now"

made : create_container_datapoints print container "now" ≡ some datapoints
unfolding create_container_datapoints
made = refl

create_container_datapoints-IsOf_example : All (IsOf container "now") datapoints
create_container_datapoints-IsOf_example =
    create_container_datapoints-IsOf print container "now" datapoints made

found_framework : get_framework_info_by_framework_id "f1" (framework ∷ []) ≡ some framework
unfolding get_framework_info_by_framework_id find?
found_framework = refl

found_executor : get_executor_info_by_executor_id "e1" (executor ∷ []) ≡ some executor
unfolding get_executor_info_by_executor_id find?
found_executor = refl

metrics_messages_complete_example :
    (m : MetricsMessage) × (n : ℕ) × Elem m (metrics_messages print time collector)
    × Describes print (time n) collector container m
metrics_messages_complete_example =
    metrics_messages_complete print collector time container statistics framework executor
      (inl refl) refl found_framework found_executor

abbrev pub the_message : MetricsMessage
the_message = record {
  name = container_metric_prefix;
  datapoints = datapoints;
  dimensions = dimensions_of print "now" collector container framework executor;
  timestamp = pos 100;
}

sent : Elem the_message (metrics_messages print time collector)
unfolding metrics_messages messages_of message_of create_container_datapoints
    get_framework_info_by_framework_id find? get_executor_info_by_executor_id
sent = inl refl

abbrev later : MetricsMessage
later = record {
  name = container_metric_prefix;
  datapoints = datapoints;
  dimensions =
      dimensions_of print "now" (poll_mesos_agent (pos 200) (answered state) failed collector)
        container framework executor;
  timestamp = pos 200;
}

sent_again :
    Elem later
      (metrics_messages print time (poll_mesos_agent (pos 200) (answered state) failed collector))
unfolding metrics_messages messages_of poll_mesos_agent get_container_metrics or_kept
    get_agent_state message_of create_container_datapoints get_framework_info_by_framework_id find?
    get_executor_info_by_executor_id
sent_again = inl refl

poll_failed_restamps_example :
    (cm : AgentContainer) × (n : ℕ) × Elem cm (container ∷ [])
    × (create_container_datapoints print cm (time n) ≡ some datapoints)
    × (pos 200 ≡ pos 200)
poll_failed_restamps_example =
    poll_failed_restamps print time (pos 200) (answered state) collector later sent_again
