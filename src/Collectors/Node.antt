-- ===== src/Collectors/Node.antt =====
-- collectors/node: the metrics of the host itself. node.go and metrics.go: a poll of all pollers, and the message that is made of it.
pub mod Gopsutil
pub mod Cpu
pub mod Pollers
pub mod Laws
pub mod Count
pub mod Rounds
use dcos_metrics.Prelude.{
  ℕ, zero, suc, ◌+◌, ◌-◌, ◌≤◌, ◌<◌, String, ◌≡◌, refl, sym, ap, ◌∙◌, ◌≢◌, ◌⊎◌, inl, inr, Bool, true,
  false, ◌&&◌, ◌||◌, not, Option, none, some, List, [], ◌∷◌, ◌++◌, arith, ◌==◌, eq_iff,
  if◌then◌else◌,
}
use dcos_metrics.Collectors.{NodeInfo}
use dcos_metrics.Collectors.Node.Gopsutil.{FloatOps, Host, TimesStat}
use dcos_metrics.Producers.{MetricsMessage, Datapoint, node_metric_prefix, no_dimensions}
use dcos_metrics.Prelude.Int.{ℤ}
use dcos_metrics.Collectors.Node.Cpu.{last_cpu_after, cpu_datapoints}
use dcos_metrics.Collectors.Node.Pollers.{
  uptime_datapoints, load_datapoints, filesystem_datapoints, memory_datapoints, network_datapoints,
  process_datapoints,
}

pub data Poller : Type 0 where
  uptime cpu_cores load filesystem memory network process : Poller

abbrev pub node_metric_pollers : List Poller
node_metric_pollers = uptime ∷ cpu_cores ∷ load ∷ filesystem ∷ memory ∷ network ∷ process ∷ []

module _ (f : FloatOps) (host : Host) (this_time : Poller → String) where
  -- `poll` and then `getDatapoints`, which never fails; `none` is the error of `poll`. The times of the CPU at the last poll are a global variable.
  unfoldable pub reading : Poller → TimesStat → Option (List Datapoint)
  reading uptime last = uptime_datapoints host (this_time uptime)
  reading cpu_cores last = cpu_datapoints f host (this_time cpu_cores) last
  reading load last = load_datapoints host (this_time load)
  reading filesystem last = filesystem_datapoints host (this_time filesystem)
  reading memory last = memory_datapoints host (this_time memory)
  reading network last = network_datapoints host (this_time network)
  reading process last = process_datapoints host (this_time process)

  unfoldable pub last_after : Poller → TimesStat → TimesStat
  last_after cpu_cores last = last_cpu_after host last
  last_after _ last = last

  -- The loop of `getNodeMetrics`: the times of the CPU, the datapoints so far, and whether an error stopped it. On Windows a poller that fails is skipped.
  unfoldable pub poll_all :
      Bool → List Poller → List Datapoint → TimesStat → TimesStat × List Datapoint × Bool
  poll_all windows [] datapoints last = (last, datapoints, false)
  poll_all windows (mp ∷ mps) datapoints last =
      let last' = last_after mp last in
      elim (reading mp last) [
        | none ↦
            if windows then poll_all windows mps datapoints last' else (last', datapoints, true)
        | some dps ↦ poll_all windows mps (datapoints ++ dps) last'
      ]

  unfoldable pub get_node_metrics : Bool → TimesStat → TimesStat × List Datapoint × Bool
  get_node_metrics windows last = poll_all windows node_metric_pollers [] last

-- The fields of `Collector`, and the times of the CPU.
pub record Collector : Type 0 where
  pub node_info : NodeInfo
  pub node_metrics : List Datapoint
  pub timestamp : ℤ
  pub last_cpu : TimesStat

unfoldable pub poll_host : FloatOps → Host → (Poller → String) → Bool → ℤ → Collector → Collector
poll_host f host this_time windows now c =
    let (last, nm, failed) = get_node_metrics f host this_time windows c.last_cpu in
    record c {
      timestamp = now;
      last_cpu = last;
      node_metrics = if failed then c.node_metrics else nm;
    }

-- The message of `transform`.
abbrev pub node_message : Collector → MetricsMessage
node_message c = record {
  name = node_metric_prefix;
  datapoints = c.node_metrics;
  dimensions = record no_dimensions {
    mesos_id = c.node_info.mesos_id;
    cluster_id = c.node_info.cluster_id;
    hostname = c.node_info.hostname;
  };
  timestamp = c.timestamp;
}

unfoldable pub transform : Collector → List MetricsMessage
transform c = node_message c ∷ []
