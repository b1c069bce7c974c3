-- ===== src/Producers.antt =====
-- producers/interface.go: the messages that every collector sends and every producer receives.
-- A `float64` or `float32` is its IEEE 754 bit pattern, so that the tests for NaN compute.
pub mod SortTags
pub mod Store
pub mod Cache
pub mod Http
pub mod Prometheus
use dcos_metrics.Prelude.{
  ℕ, ◌-◌, ◌+◌, ◌*◌, ◌%◌, ◌^◌, String, Bool, List, [], ◌∷◌, Dict, join, ltb, leb, eqb,
}
use dcos_metrics.Prelude.Int.{ℤ}

-- What an `interface{}` may hold. `composite` stands for slices, maps and structs, by their print.
pub data Value : Type 0 where
  float64 : ℕ → Value
  float32 : ℕ → Value
  int : ℤ → Value
  int32 : ℤ → Value
  int64 : ℤ → Value
  uint : ℕ → Value
  uint32 : ℕ → Value
  uint64 : ℕ → Value
  text : String → Value
  boolean : Bool → Value
  null : Value
  composite : String → Value

-- `math.IsNaN` and `math.IsInf(v, 0)` of a `float64`, by its bits.
abbrev pub is_nan : ℕ → Bool
is_nan bits = ltb 0x7FF0000000000000 (bits % 2 ^ 63)

abbrev pub is_inf : ℕ → Bool
is_inf bits = eqb (bits % 2 ^ 63) 0x7FF0000000000000

-- `math.NaN()`.
abbrev pub nan : ℕ
nan = 0x7FF8000000000001

pub record Datapoint : Type 0 where
  pub name : String
  pub value : Value
  pub unit : String
  pub timestamp : String
  pub tags : Dict String

pub record Dimensions : Type 0 where
  pub mesos_id : String
  pub cluster_id : String
  pub container_id : String
  pub executor_id : String
  pub framework_name : String
  pub framework_id : String
  pub framework_role : String
  pub framework_principal : String
  pub task_name : String
  pub task_id : String
  pub hostname : String
  pub labels : Dict String

pub record MetricsMessage : Type 0 where
  pub name : String
  pub datapoints : List Datapoint
  pub dimensions : Dimensions
  pub timestamp : ℤ

abbrev pub metric_namespace_sep : String
metric_namespace_sep = "."

abbrev pub container_metric_prefix : String
container_metric_prefix = "dcos.metrics.container"

abbrev pub node_metric_prefix : String
node_metric_prefix = "dcos.metrics.node"

abbrev pub app_metric_prefix : String
app_metric_prefix = "dcos.metrics.app"

-- `strings.Join(segments, MetricNamespaceSep)`.
unfoldable pub join_metric_name : List String → String
join_metric_name segments = join metric_namespace_sep segments

-- The zero values of the structs.
abbrev pub no_dimensions : Dimensions
no_dimensions = record {
  mesos_id = "";
  cluster_id = "";
  container_id = "";
  executor_id = "";
  framework_name = "";
  framework_id = "";
  framework_role = "";
  framework_principal = "";
  task_name = "";
  task_id = "";
  hostname = "";
  labels = [];
}
