-- ===== src/Collectors/Agent.antt =====
-- collectors/mesos/agent: what the Mesos agent answers, by state.go and container.go.
pub mod Tasks
use dcos_metrics.Prelude.{
  ℕ, zero, suc, ◌+◌, ◌-◌, ◌≤◌, ◌<◌, String, ◌≡◌, refl, sym, ap, ◌∙◌, ◌≢◌, ◌⊎◌, inl, inr, Bool, true,
  false, ◌&&◌, ◌||◌, not, Option, none, some, List, [], ◌∷◌, ◌++◌, arith, ◌==◌, eq_iff,
  if◌then◌else◌,
}
pub mod Datapoints
pub mod Messages
pub mod Poller

pub record KeyValue : Type 0 where
  pub key : String
  pub value : String

-- A status is its container's id: `ContainerStatusInfo.ID.Value`.
pub record TaskStatusInfo : Type 0 where
  pub container_id : String

pub record TaskInfo : Type 0 where
  pub id : String
  pub name : String
  pub labels : List KeyValue
  pub statuses : List TaskStatusInfo

pub record ExecutorInfo : Type 0 where
  pub id : String
  pub name : String
  pub container : String
  pub labels : List KeyValue
  pub tasks : List TaskInfo

pub record FrameworkInfo : Type 0 where
  pub id : String
  pub name : String
  pub principal : String
  pub role : String
  pub executors : List ExecutorInfo

pub record AgentState : Type 0 where
  pub id : String
  pub hostname : String
  pub frameworks : List FrameworkInfo

pub record IoStatValue : Type 0 where
  pub operation : String
  pub value : ℕ

pub record IoDeviceStats : Type 0 where
  pub major : ℕ
  pub minor : ℕ
  pub serviced : List IoStatValue
  pub service_bytes : List IoStatValue
  pub service_time : List IoStatValue
  pub merged : List IoStatValue
  pub queued : List IoStatValue
  pub wait_time : List IoStatValue

-- A nil slice and an empty one give the same datapoints, none.
pub record BlkioStats : Type 0 where
  pub cfq : List IoDeviceStats
  pub cfq_recursive : List IoDeviceStats
  pub throttling : List IoDeviceStats

pub record ResourceStatistics : Type 0 where
  pub processes : ℕ
  pub threads : ℕ
  -- float64, by bits
  pub cpus_user_time_secs : ℕ
  pub cpus_system_time_secs : ℕ
  pub cpus_limit : ℕ
  pub cpus_nr_periods : ℕ
  pub cpus_nr_throttled : ℕ
  -- float64, by bits
  pub cpus_throttled_time_secs : ℕ
  pub mem_total_bytes : ℕ
  pub mem_total_memsw_bytes : ℕ
  pub mem_limit_bytes : ℕ
  pub mem_soft_limit_bytes : ℕ
  pub mem_cache_bytes : ℕ
  pub mem_rss_bytes : ℕ
  pub mem_mapped_file_bytes : ℕ
  pub mem_swap_bytes : ℕ
  pub mem_unevictable_bytes : ℕ
  pub mem_low_pressure_counter : ℕ
  pub mem_medium_pressure_counter : ℕ
  pub mem_critical_pressure_counter : ℕ
  pub disk_limit_bytes : ℕ
  pub disk_used_bytes : ℕ
  pub net_rx_packets : ℕ
  pub net_rx_bytes : ℕ
  pub net_rx_errors : ℕ
  pub net_rx_dropped : ℕ
  pub net_tx_packets : ℕ
  pub net_tx_bytes : ℕ
  pub net_tx_errors : ℕ
  pub net_tx_dropped : ℕ
  pub blkio : Option BlkioStats

-- `ContainerStatus` is decoded and never read; it is left out.
pub record AgentContainer : Type 0 where
  pub framework_id : String
  pub executor_id : String
  pub executor_name : String
  pub source : String
  pub container_id : String
  pub statistics : Option ResourceStatistics
