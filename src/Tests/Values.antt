-- ===== src/Tests/Values.antt =====
-- The messages, stores and agents that the examples use.
use dcos_metrics.Prelude.{ℕ, String, [], ◌∷◌, Dict}
use dcos_metrics.Prelude.Int.{ℤ, pos}
use dcos_metrics.Producers.{
  Datapoint, MetricsMessage, Dimensions, float64, container_metric_prefix, app_metric_prefix,
  no_dimensions, node_metric_prefix,
}
use dcos_metrics.Producers.Store.{Object}
use dcos_metrics.Producers.Store.{message}

abbrev pub cpu : Datapoint
cpu = record {
  name = "cpu";
  value = float64 0x3FF0000000000000;
  unit = "count";
  timestamp = "2018-01-01T00:00:00Z";
  tags = ("zone", "b") ∷ ("host", "a") ∷ [];
}

abbrev pub mem : Datapoint
mem = record {
  name = "mem";
  value = float64 0x4000000000000000;
  unit = "bytes";
  timestamp = "2018-01-01T00:00:00Z";
  tags = ("zone", "c") ∷ ("host", "d") ∷ [];
}

abbrev pub web_dimensions : Dimensions
web_dimensions = record no_dimensions { mesos_id = "m1"; container_id = "web"; hostname = "h1" }

-- A container's message, at second 100.
abbrev pub web : MetricsMessage
web = record {
  name = container_metric_prefix;
  datapoints = cpu ∷ [];
  dimensions = web_dimensions;
  timestamp = pos 100;
}

abbrev pub web_app : MetricsMessage
web_app = record web { name = app_metric_prefix }

abbrev pub node : MetricsMessage
node = record web { name = node_metric_prefix }

abbrev pub web_key : String
web_key = "dcos.metrics.container.web.cpu.#host:a.#zone:b"

abbrev pub web_app_key : String
web_app_key = "dcos.metrics.app.web.cpu.#host:a.#zone:b"

abbrev pub node_key : String
node_key = "dcos.metrics.node.m1.cpu.#host:a.#zone:b"

-- A minute, in nanoseconds, and a clock that stands at second 200.
abbrev pub minute : ℤ
minute = pos 60000000000

abbrev pub clock : ℕ → ℤ
clock _ = pos 200000000000

abbrev pub only_web : Dict Object
only_web = (web_key, message web) ∷ []
