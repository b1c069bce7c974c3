-- ===== src/Tests/Node.antt =====
-- Examples of collectors/node.
use dcos_metrics.Producers.Cache.Interleaving.{Reach}
use dcos_metrics.Tests.Values.{minute}
use dcos_metrics.Collectors.Node.{transform, node_message, poll_all, get_node_metrics}
use dcos_metrics.Prelude.{
  lookup, keys, str_le, join, lookup_or, ◌≡◌, refl, inl, inr, false, some, List, [], ◌∷◌, Elem,
  none, ◌++◌, concat_map,
}
use dcos_metrics.Producers.Cache.Interleaving.{start, here, Reach}
use dcos_metrics.Producers.Http.{encode, node_handler, combined}
use dcos_metrics.Tests.Values.{minute, cpu, mem}
use dcos_metrics.Prelude.{refl, ◌≡◌, false, some, List, [], ◌∷◌}
use dcos_metrics.Collectors.Node.{Collector, poll_host, node_metric_pollers, reading}
use dcos_metrics.Prelude.{◌≡◌, false, some, List, [], ◌∷◌, eqb}
use dcos_metrics.Collectors.Node.Laws.{gather, or_else, poll_host-gather}
use dcos_metrics.Collectors.Node.Gopsutil.{TimesStat, FloatOps, IoCounters, Host}
use dcos_metrics.Producers.{Datapoint, MetricsMessage}
use dcos_metrics.Service.Config.{no_node_info}
use dcos_metrics.Prelude.Int.{pos}
use dcos_metrics.Collectors.Node.Pollers.{
  uptime_datapoints, load_datapoints, filesystem_datapoints, usage_of, memory_datapoints,
  network_datapoints, process_datapoints, filesystem_points, network_points,
}
use dcos_metrics.Collectors.Node.Cpu.{
  cpu_datapoints, cpu_poll, get_num_cores, get_cpu_times, cpu_points,
}
use dcos_metrics.Producers.Cache.{qualified_name, message_prefix, receive_all}
use dcos_metrics.Producers.Store.Lists.{list_store}
use dcos_metrics.Producers.Store.{HasUniqueKeys}
use dcos_metrics.Producers.Cache.History.{writes}
use dcos_metrics.Service.NodeServed.{node_poll-served}
use dcos_metrics.Collectors.Node.Rounds.{
  HostRound, run_node_poller, poll_round, Shows, run_node_poller-IsReadingOf,
}

abbrev floats : FloatOps
floats = record {
  add = λ a b. a;
  sub = λ a b. a;
  mul = λ a b. a;
  div = λ a b. a;
  floor = λ a. a;
  max = λ a b. a;
  is_zero = λ a. eqb a 0;
  of_int = λ a. a;
  half = 0;
  total = λ t. t.user;
}

abbrev idle_times : TimesStat
idle_times = record {
  user = 1;
  system = 1;
  idle = 9;
  nice = 0;
  iowait = 0;
  irq = 0;
  softirq = 0;
  steal = 0;
  guest = 0;
  guest_nice = 0;
  stolen = 0;
}

abbrev lo : IoCounters
lo = record {
  name = "lo";
  bytes_recv = 1;
  bytes_sent = 1;
  packets_recv = 1;
  packets_sent = 1;
  dropin = 0;
  dropout = 0;
  errin = 0;
  errout = 0;
}

abbrev small_host : Host
small_host = record {
  uptime = some 7;
  cpu_info = some (pos 2 ∷ pos 2 ∷ []);
  cpu_times = some idle_times;
  load_avg = some (1, 2, 3);
  partitions = some ("/" ∷ []);
  usage = λ p. some (record {
    path = p;
    total = 10;
    used = 4;
    free = 6;
    inodes_total = 10;
    inodes_used = 4;
    inodes_free = 6;
  });
  virtual_memory = some (record { total = 8; free = 2; buffers = 1; cached = 1 });
  swap_memory = some (record { total = 8; free = 8; used = 0 });
  io_counters = some (lo ∷ []);
  procs = some 3;
}

abbrev gathered : List Datapoint
gathered = or_else (gather floats small_host (λ _. "t") node_metric_pollers idle_times) []

all_read : gather floats small_host (λ _. "t") node_metric_pollers idle_times ≡ some gathered
unfolding reading uptime_datapoints cpu_datapoints cpu_poll get_num_cores get_cpu_times
    load_datapoints filesystem_datapoints usage_of memory_datapoints network_datapoints
    process_datapoints
all_read = refl

abbrev new_collector : Collector
new_collector = record {
  node_info = no_node_info;
  node_metrics = [];
  timestamp = pos 0;
  last_cpu = idle_times;
}

poll_host-gather_example :
    (Collector.node_metrics (poll_host floats small_host (λ _. "t") false (pos 60) new_collector)
      ≡ or_else (gather floats small_host (λ _. "t") node_metric_pollers idle_times) [])
    × (Collector.timestamp (poll_host floats small_host (λ _. "t") false (pos 60) new_collector)
        ≡ pos 60)
poll_host-gather_example = poll_host-gather floats small_host (λ _. "t") (pos 60) new_collector

-- A round in which every poller is read, and one in which the processes cannot be counted.
abbrev good_round : HostRound
good_round = record { now = pos 60; host = small_host; this_time = λ _. "t" }

abbrev bad_round : HostRound
bad_round = record {
  now = pos 120;
  host = record small_host { procs = none };
  this_time = λ _. "u";
}

abbrev kept_message : MetricsMessage
kept_message =
    node_message
      (poll_round floats false bad_round (poll_round floats false good_round new_collector))

kept : kept_message.datapoints ≡ gathered
unfolding poll_round poll_host poll_all get_node_metrics reading uptime_datapoints cpu_datapoints
    cpu_poll get_num_cores get_cpu_times load_datapoints filesystem_datapoints usage_of
    memory_datapoints network_datapoints process_datapoints cpu_points concat_map filesystem_points
    network_points
kept = refl

kept_message-sent :
    Elem kept_message (run_node_poller floats false (good_round ∷ bad_round ∷ []) new_collector).0
unfolding run_node_poller transform
kept_message-sent = inr (inl refl)

run_node_poller-IsReadingOf_example :
    (before : List HostRound) × (r : HostRound) × (after : List HostRound) × (good_round ∷ bad_round
        ∷ []
      ≡ before ++ r ∷ after)
    × (kept_message.timestamp ≡ r.now)
    × Shows floats (before ++ r ∷ []) new_collector kept_message
run_node_poller-IsReadingOf_example =
    run_node_poller-IsReadingOf floats (good_round ∷ bad_round ∷ []) new_collector kept_message
      kept_message-sent

abbrev polled_host : Collector
polled_host = record new_collector { node_metrics = cpu ∷ mem ∷ []; timestamp = pos 60 }

own_keys : HasUniqueKeys (writes (transform polled_host))
unfolding transform lookup qualified_name message_prefix keys str_le join lookup_or
own_keys = (refl, (refl, tt))

nothing_yet : Reach list_store minute (start list_store) (start list_store)
nothing_yet = here

node_poll-served_example :
    (m : MetricsMessage) × (node_handler list_store
        (receive_all list_store (transform polled_host) [])
      ≡ encode (combined m))
    × Elem mem m.datapoints
node_poll-served_example =
    node_poll-served list_store (start list_store) nothing_yet polled_host mem own_keys
      (inr (inl refl))
