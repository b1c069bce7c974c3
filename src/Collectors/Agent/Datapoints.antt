-- ===== src/Collectors/Agent/Datapoints.antt =====
-- collectors/mesos/agent/metrics.go: the datapoints of one container.
pub mod Laws
use dcos_metrics.Prelude.{
  ℕ, String, Option, none, some, List, [], ◌∷◌, ◌++◌, if◌then◌else◌, Dict, insert_all, ltb, ◌<>◌,
}
use dcos_metrics.Collectors.Agent.{
  AgentContainer, BlkioStats, IoDeviceStats, IoStatValue, ResourceStatistics,
}
use dcos_metrics.Producers.{Datapoint, Value, uint32, uint64, float64}

abbrev pub seconds : String
seconds = "seconds"

abbrev pub count : String
count = "count"

abbrev pub bytes : String
bytes = "bytes"

-- `fmt.Sprintf("%d:%d", major, minor)`: the decimal print is a parameter, and so is
-- `strings.ToLower`.
pub record Printing : Type 0 where
  pub decimal : ℕ → String
  pub to_lower : String → String

abbrev pub container_tags : AgentContainer → Dict String
container_tags c =
    ("container_id", c.container_id)
    ∷ ("source", c.source)
    ∷ ("framework_id", c.framework_id)
    ∷ ("executor_id", c.executor_id)
    ∷ ("executor_name", c.executor_name)
    ∷ []

module _ (tags : Dict String) (ts : String) where
  abbrev pub gauge : String → Value → String → Datapoint
  gauge name value unit = record {
    name = name;
    value = value;
    unit = unit;
    timestamp = ts;
    tags = tags;
  }

  -- `addDps`. The four transmission counters are read from the fields of reception, as in the source.
  unfoldable pub add_dps : ResourceStatistics → List Datapoint
  add_dps s =
      gauge "processes" (uint32 s.processes) count
      ∷ gauge "threads" (uint32 s.threads) count
      ∷ gauge "cpus.user.time" (float64 s.cpus_user_time_secs) seconds
      ∷ gauge "cpus.system.time" (float64 s.cpus_system_time_secs) seconds
      ∷ gauge "cpus.limit" (float64 s.cpus_limit) count
      ∷ gauge "cpus.nr.periods" (uint32 s.cpus_nr_periods) count
      ∷ gauge "cpus.nr.throttled" (uint32 s.cpus_nr_throttled) count
      ∷ gauge "cpus.throttled.time" (float64 s.cpus_throttled_time_secs) seconds
      ∷ gauge "mem.total" (uint64 s.mem_total_bytes) bytes
      ∷ gauge "mem.total.memsw" (uint64 s.mem_total_memsw_bytes) bytes
      ∷ gauge "mem.limit" (uint64 s.mem_limit_bytes) bytes
      ∷ gauge "mem.soft.limit" (uint64 s.mem_soft_limit_bytes) bytes
      ∷ gauge "mem.cache" (uint64 s.mem_cache_bytes) bytes
      ∷ gauge "mem.rss" (uint64 s.mem_rss_bytes) bytes
      ∷ gauge "mem.mapped.file" (uint64 s.mem_mapped_file_bytes) bytes
      ∷ gauge "mem.swap" (uint64 s.mem_swap_bytes) bytes
      ∷ gauge "mem.unevictable" (uint64 s.mem_unevictable_bytes) bytes
      ∷ gauge "mem.low.pressure" (uint64 s.mem_low_pressure_counter) count
      ∷ gauge "mem.medium.pressure" (uint64 s.mem_medium_pressure_counter) count
      ∷ gauge "mem.critical.pressure" (uint64 s.mem_critical_pressure_counter) count
      ∷ gauge "disk.limit" (uint64 s.disk_limit_bytes) bytes
      ∷ gauge "disk.used" (uint64 s.disk_used_bytes) bytes
      ∷ gauge "net.rx.packets" (uint64 s.net_rx_packets) count
      ∷ gauge "net.rx.bytes" (uint64 s.net_rx_bytes) bytes
      ∷ gauge "net.rx.errors" (uint64 s.net_rx_errors) count
      ∷ gauge "net.rx.dropped" (uint64 s.net_rx_dropped) count
      ∷ gauge "net.tx.packets" (uint64 s.net_rx_packets) count
      ∷ gauge "net.tx.bytes" (uint64 s.net_rx_bytes) bytes
      ∷ gauge "net.tx.errors" (uint64 s.net_rx_errors) count
      ∷ gauge "net.tx.dropped" (uint64 s.net_rx_dropped) count
      ∷ []

module _ (print : Printing) where
  open print use {decimal, to_lower}

  unfoldable pub stat_values_to_datapoints :
      List IoStatValue → String → Dict String → String → List Datapoint
  stat_values_to_datapoints [] prefix tags ts = []
  stat_values_to_datapoints (s ∷ vals) prefix tags ts =
      gauge tags ts (prefix <> "." <> to_lower s.operation) (uint64 s.value) bytes
      ∷ stat_values_to_datapoints vals prefix tags ts

  unfoldable pub device_name : IoDeviceStats → String
  device_name stat =
      if ltb 0 stat.major then decimal stat.major <> ":" <> decimal stat.minor else "total"

  -- A new map of tags for each device; the base tags are written over it.
  unfoldable pub device_tags : IoDeviceStats → Dict String → Dict String
  device_tags stat base_tags = insert_all (("blkio_device", device_name stat) ∷ []) base_tags

  unfoldable pub device_datapoints : IoDeviceStats → String → Dict String → String → List Datapoint
  device_datapoints stat prefix tags ts =
      stat_values_to_datapoints stat.serviced (prefix <> "." <> "io_serviced") tags ts
      ++ (stat_values_to_datapoints stat.service_bytes (prefix <> "." <> "io_service_bytes") tags ts
          ++ (stat_values_to_datapoints stat.service_time (prefix <> "." <> "io_service_time") tags
                ts
              ++ (stat_values_to_datapoints stat.merged (prefix <> "." <> "io_merged") tags ts
                  ++ (stat_values_to_datapoints stat.queued (prefix <> "." <> "io_queued") tags ts
                      ++ stat_values_to_datapoints stat.wait_time (prefix <> "." <> "io_wait_time")
                          tags ts))))

  unfoldable pub device_stats_to_datapoints :
      List IoDeviceStats → String → Dict String → String → List Datapoint
  device_stats_to_datapoints [] prefix base_tags ts = []
  device_stats_to_datapoints (stat ∷ stats) prefix base_tags ts =
      device_datapoints stat prefix (device_tags stat base_tags) ts
      ++ device_stats_to_datapoints stats prefix base_tags ts

  unfoldable pub blkio_datapoints : Option BlkioStats → Dict String → String → List Datapoint
  blkio_datapoints none tags ts = []
  blkio_datapoints (some b) tags ts =
      device_stats_to_datapoints b.cfq "blkio.cfq" tags ts
      ++ (device_stats_to_datapoints b.cfq_recursive "blkio.cfq_recursive" tags ts
          ++ device_stats_to_datapoints b.throttling "blkio.throttling" tags ts)

  -- `none` is `ErrNoStatistics`, the one error that the function returns.
  unfoldable pub create_container_datapoints : AgentContainer → String → Option (List Datapoint)
  create_container_datapoints c ts = elim c.statistics [
    | none ↦ none
    | some s ↦
        some (add_dps (container_tags c) ts s ++ blkio_datapoints s.blkio (container_tags c) ts)
  ]
