-- ===== src/Collectors/Node/Cpu.antt =====
-- collectors/node/cpu.go.
use dcos_metrics.Prelude.{ℕ, String, Option, none, some, List, [], ◌∷◌, if◌then◌else◌, Dict, ◌>>=◌}
use dcos_metrics.Prelude.Int.{ℤ, wrap, ◌+ℤ◌, pos}
use dcos_metrics.Collectors.Node.Gopsutil.{Host, FloatOps, TimesStat}
use dcos_metrics.Producers.{Datapoint, Value, int32, float64}

abbrev pub count_unit : String
count_unit = "count"

abbrev pub bytes_unit : String
bytes_unit = "bytes"

abbrev pub percent_unit : String
percent_unit = "percent"

-- A datapoint of the host.
abbrev pub point : String → String → Dict String → String → Value → Datapoint
point name unit tags ts value = record {
  name = name;
  value = value;
  unit = unit;
  timestamp = ts;
  tags = tags;
}

unfoldable pub add_cores : List ℤ → ℤ → ℤ
add_cores [] cores = cores
add_cores (c ∷ cpus) cores = add_cores cpus (wrap 32 (cores +ℤ c))

unfoldable pub get_num_cores : Host → Option ℤ
get_num_cores host = do cpus ← host.cpu_info; some (add_cores cpus (pos 0))

-- `getCPUTimes`: the current times and the last ones.
unfoldable pub get_cpu_times : Host → TimesStat → Option (TimesStat × TimesStat)
get_cpu_times host last = do current ← host.cpu_times; some (current, last)

-- The global variable after a poll: it changes when the cores and the times could be read.
unfoldable pub last_cpu_after : Host → TimesStat → TimesStat
last_cpu_after host last = elim (get_num_cores host) [
  | none ↦ last
  | some cores ↦ elim host.cpu_times [ none ↦ last | some current ↦ current ]
]

pub record CpuCoresMetric : Type 0 where
  pub cpu_cores : ℤ
  pub cpu_total : ℕ
  pub cpu_user : ℕ
  pub cpu_system : ℕ
  pub cpu_idle : ℕ
  pub cpu_wait : ℕ
  pub timestamp : String

module _ (f : FloatOps) where
  open f use {add, sub, mul, div, floor, max, is_zero, of_int, half}

  unfoldable pub format_pct : ℕ → ℕ → ℕ
  format_pct x d =
      let d' = if is_zero d then of_int 1 else d in
      let rounded = floor (add (mul (div x d') (of_int 10000)) half) in
      max (div rounded (of_int 100)) (of_int 0)

  unfoldable pub calculate_pcts : TimesStat → TimesStat → TimesStat
  calculate_pcts last cur =
      let total_delta = sub (f.total cur) (f.total last) in
      record {
        user = format_pct (sub cur.user last.user) total_delta;
        system = format_pct (sub cur.system last.system) total_delta;
        idle = format_pct (sub cur.idle last.idle) total_delta;
        nice = format_pct (sub cur.nice last.nice) total_delta;
        iowait = format_pct (sub cur.iowait last.iowait) total_delta;
        irq = format_pct (sub cur.irq last.irq) total_delta;
        softirq = format_pct (sub cur.softirq last.softirq) total_delta;
        steal = format_pct (sub cur.steal last.steal) total_delta;
        guest = format_pct (sub cur.guest last.guest) total_delta;
        guest_nice = format_pct (sub cur.guest_nice last.guest_nice) total_delta;
        stolen = format_pct (sub cur.stolen last.stolen) total_delta;
      }

  -- `poll` gives the current times for the last ones and the other way round, as in the source.
  unfoldable pub cpu_poll : Host → String → TimesStat → Option CpuCoresMetric
  cpu_poll host ts last = do
    hi ← get_num_cores host
    times ← get_cpu_times host last
    let pcts = calculate_pcts times.0 times.1
    some (record {
      cpu_cores = hi;
      cpu_total = add pcts.user pcts.system;
      cpu_user = pcts.user;
      cpu_system = pcts.system;
      cpu_idle = pcts.idle;
      cpu_wait = pcts.iowait;
      timestamp = ts;
    })

  unfoldable pub cpu_points : CpuCoresMetric → List Datapoint
  cpu_points m =
      point "cpu.cores" count_unit [] m.timestamp (int32 m.cpu_cores)
      ∷ point "cpu.total" percent_unit [] m.timestamp (float64 m.cpu_total)
      ∷ point "cpu.user" percent_unit [] m.timestamp (float64 m.cpu_user)
      ∷ point "cpu.system" percent_unit [] m.timestamp (float64 m.cpu_system)
      ∷ point "cpu.idle" percent_unit [] m.timestamp (float64 m.cpu_idle)
      ∷ point "cpu.wait" percent_unit [] m.timestamp (float64 m.cpu_wait)
      ∷ []

  unfoldable pub cpu_datapoints : Host → String → TimesStat → Option (List Datapoint)
  cpu_datapoints host ts last = do m ← cpu_poll host ts last; some (cpu_points m)
