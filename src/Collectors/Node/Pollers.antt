-- ===== src/Collectors/Node/Pollers.antt =====
-- collectors/node: uptime.go, load.go, filesystem.go, memory.go, network.go and process.go. Each function polls and gives the datapoints.
use dcos_metrics.Prelude.{String, Option, some, List, [], ◌∷◌, ◌>>=◌, concat_map}
use dcos_metrics.Collectors.Node.Gopsutil.{IoCounters, Host, Usage}
use dcos_metrics.Producers.{Datapoint, uint64, float64}
use dcos_metrics.Collectors.Node.Cpu.{point, bytes_unit, count_unit}

unfoldable pub uptime_datapoints : Host → String → Option (List Datapoint)
uptime_datapoints host ts = do
  uptime ← host.uptime
  some (point "system.uptime" count_unit [] ts (uint64 uptime) ∷ [])

unfoldable pub process_datapoints : Host → String → Option (List Datapoint)
process_datapoints host ts = do
  procs ← host.procs
  some (point "process.count" count_unit [] ts (uint64 procs) ∷ [])

unfoldable pub load_datapoints : Host → String → Option (List Datapoint)
load_datapoints host ts = do
  l ← host.load_avg
  some (
      point "load.1min" count_unit [] ts (float64 l.0)
      ∷ point "load.5min" count_unit [] ts (float64 l.1)
      ∷ point "load.15min" count_unit [] ts (float64 l.2)
      ∷ [])

unfoldable pub memory_datapoints : Host → String → Option (List Datapoint)
memory_datapoints host ts = do
  virt ← host.virtual_memory
  swap ← host.swap_memory
  some (
      point "memory.total" bytes_unit [] ts (uint64 virt.total)
      ∷ point "memory.free" bytes_unit [] ts (uint64 virt.free)
      ∷ point "memory.buffers" bytes_unit [] ts (uint64 virt.buffers)
      ∷ point "memory.cached" bytes_unit [] ts (uint64 virt.cached)
      ∷ point "swap.total" bytes_unit [] ts (uint64 swap.total)
      ∷ point "swap.free" bytes_unit [] ts (uint64 swap.free)
      ∷ point "swap.used" bytes_unit [] ts (uint64 swap.used)
      ∷ [])

unfoldable pub usage_of : (String → Option Usage) → List String → Option (List Usage)
usage_of usage [] = some []
usage_of usage (part ∷ parts) = do u ← usage part; rest ← usage_of usage parts; some (u ∷ rest)

-- The six datapoints of one filesystem.
unfoldable pub filesystem_points : String → Usage → List Datapoint
filesystem_points ts fs =
    let tags = ("path", fs.path) ∷ [] in
    point "filesystem.capacity.total" bytes_unit tags ts (uint64 fs.total)
    ∷ point "filesystem.capacity.used" bytes_unit tags ts (uint64 fs.used)
    ∷ point "filesystem.capacity.free" bytes_unit tags ts (uint64 fs.free)
    ∷ point "filesystem.inode.total" count_unit tags ts (uint64 fs.inodes_total)
    ∷ point "filesystem.inode.used" count_unit tags ts (uint64 fs.inodes_used)
    ∷ point "filesystem.inode.free" count_unit tags ts (uint64 fs.inodes_free)
    ∷ []

unfoldable pub filesystem_datapoints : Host → String → Option (List Datapoint)
filesystem_datapoints host ts = do
  parts ← host.partitions
  usages ← usage_of host.usage parts
  some (concat_map (filesystem_points ts) usages)

-- The eight datapoints of one interface.
unfoldable pub network_points : String → IoCounters → List Datapoint
network_points ts nic =
    let tags = ("interface", nic.name) ∷ [] in
    point "network.in" bytes_unit tags ts (uint64 nic.bytes_recv)
    ∷ point "network.out" bytes_unit tags ts (uint64 nic.bytes_sent)
    ∷ point "network.in.packets" count_unit tags ts (uint64 nic.packets_recv)
    ∷ point "network.out.packets" count_unit tags ts (uint64 nic.packets_sent)
    ∷ point "network.in.dropped" count_unit tags ts (uint64 nic.dropin)
    ∷ point "network.out.dropped" count_unit tags ts (uint64 nic.dropout)
    ∷ point "network.in.errors" count_unit tags ts (uint64 nic.errin)
    ∷ point "network.out.errors" count_unit tags ts (uint64 nic.errout)
    ∷ []

unfoldable pub network_datapoints : Host → String → Option (List Datapoint)
network_datapoints host ts = do nics ← host.io_counters; some (concat_map (network_points ts) nics)
