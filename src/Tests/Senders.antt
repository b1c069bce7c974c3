-- ===== src/Tests/Senders.antt =====
-- Examples of the plugins that send what they poll.
use dcos_metrics.Plugins.Librato.{
  new_post_request, is_blank, is_space, add, add_datapoints, measure, finished, set_value, validate,
  tagged, set_tags, add_tag, check_response, check_summary, floor_time, is_name_char, is_tag_name,
  is_tag_value, is_value_char, label_tags, metric_name, named, set_tag,
}
use dcos_metrics.Producers.Prometheus.Sanitize.{codes, is_word}
use dcos_metrics.Plugins.Convert.{parse_datapoint_timestamp, datapoint_value_to_float64}
use dcos_metrics.Prelude.Int.{◌*ℤ◌, ◌-ℤ◌}
use dcos_metrics.Prelude.{
  insert, ℕ, zero, suc, ◌+◌, ◌<◌, String, ◌≡◌, inl, inr, Bool, true, false, Option, none, some,
  List, [], ◌∷◌, arith, if◌then◌else◌, refl, Elem,
}
use dcos_metrics.Prelude.{
  refl, ℕ, zero, suc, ◌+◌, ◌<◌, String, ◌≡◌, inl, inr, Bool, true, false, Option, none, some, List,
  [], ◌∷◌, arith, if◌then◌else◌,
}
use dcos_metrics.Tests.Values.{node, web}
use dcos_metrics.Plugins.Metrics.{agent, make_metrics_request}
use dcos_metrics.Prelude.{
  ℕ, zero, suc, ◌+◌, ◌<◌, String, ◌≡◌, inl, inr, Bool, true, false, Option, none, some, List, [],
  ◌∷◌, arith, if◌then◌else◌, all, lookup, eqb, ◌<>◌, All,
}
use dcos_metrics.Plugins.Datadog.{Gauge, gauge_of}
use dcos_metrics.Plugins.Start.{
  Plugin, start_plugin, poll_once, no_metrics, new_plugin, start_plugin-stops, recognised,
}
use dcos_metrics.Plugins.Metrics.{Api, metrics, agent, refused}
use dcos_metrics.Producers.{Datapoint, MetricsMessage, nan, text, float64}
use dcos_metrics.Plugins.PromText.{Formats}
use dcos_metrics.Plugins.Statsd.{Rounding, emit_datapoints, last_gauge, lookup-emit_datapoints}
use dcos_metrics.Plugins.Convert.{Conversions}
use dcos_metrics.Plugins.Librato.{
  send, is_finite, Measurement, LibratoSummary, PostRequestOpts, librato_connector, auth_header,
  is_blank, is_space, check_response, check_summary,
}
use dcos_metrics.Tests.Values.{web, mem, cpu}
use dcos_metrics.Prelude.Int.{pos}
use dcos_metrics.Tests.Plugins.{conversions, agent_gets, one_container}
use dcos_metrics.Service.Client.{Response}
use dcos_metrics.Plugins.Librato.Laws.{IsPostable}
use dcos_metrics.Producers.Prometheus.Sanitize.{codes}
use dcos_metrics.Plugins.Librato.Post.{librato_connector-IsPostable}

abbrev pub late : Conversions
late = record conversions { parse_rfc3339 = λ s. some (pos 2000000000000) }

abbrev options : PostRequestOpts
options = record {
  librato_url = "https://metrics-api.librato.com";
  librato_email = "e";
  librato_token = "t";
  metric_prefix = "dcos";
  polling_interval = pos 10;
}

abbrev base64 : String → String
base64 s = s

abbrev summary : String → Option LibratoSummary
summary body = some (record { total = pos 1; accepted = pos 1; failed = pos 0 })

abbrev accepting : String → List Measurement → Option Response
accepting header ms = some (record { status_code = 202; body = some "ok" })

abbrev measured_cpu : Measurement
measured_cpu = record {
  name = "dcos.cpu";
  value = 0x3FF0000000000000;
  tags =
      ("zone", "b")
      ∷ ("host", "a")
      ∷ ("mesos_id", "m1")
      ∷ ("container_id", "web")
      ∷ ("hostname", "h1")
      ∷ [];
  time = pos 2000;
}

posts :
    librato_connector base64 summary accepting late (λ i. pos 2000000000000) options (web ∷ [])
    ≡ some (measured_cpu ∷ [])
unfolding librato_connector new_post_request is_blank codes is_space send add add_datapoints measure
    parse_datapoint_timestamp ◌-ℤ◌ finished set_value datapoint_value_to_float64 validate tagged
    set_tags add_tag auth_header check_response check_summary floor_time is_finite is_name_char
    is_tag_name is_tag_value is_value_char label_tags metric_name named set_tag ◌*ℤ◌ insert is_word
posts = refl

librato_connector-IsPostable_example :
    (all is_finite (measured_cpu ∷ []) ≡ true) × All (IsPostable (pos 10)) (measured_cpu ∷ [])
librato_connector-IsPostable_example =
    librato_connector-IsPostable base64 summary accepting late (λ i. pos 2000000000000) options
      (web ∷ []) (measured_cpu ∷ []) posts

abbrev not_a_number : Measurement
not_a_number = record measured_cpu { value = nan }

is_not_finite : is_finite not_a_number ≡ false
unfolding is_finite
is_not_finite = refl

abbrev nan_datapoint : Datapoint
nan_datapoint = record cpu { value = float64 nan }

abbrev half_good : List MetricsMessage
half_good = record web { datapoints = cpu ∷ nan_datapoint ∷ [] } ∷ []

nan_is_made : Elem not_a_number (add late options (λ i. pos 2000000000000) 0 half_good)
unfolding codes add add_datapoints measure parse_datapoint_timestamp ◌-ℤ◌ finished set_value
    datapoint_value_to_float64 validate tagged set_tags add_tag floor_time is_name_char is_tag_name
    is_tag_value is_value_char label_tags metric_name named set_tag ◌*ℤ◌ insert is_word
nan_is_made = inr (inl refl)

sends : send base64 summary accepting options (measured_cpu ∷ []) ≡ (some (measured_cpu ∷ []), none)
unfolding send is_finite auth_header is_blank codes is_space check_response check_summary
sends = refl

-- The first poll is answered, and those after it are refused.
abbrev dying : ℕ → Api
dying i = if eqb i 0 then one_container else record one_container { message = λ _. refused }

abbrev takes_all : ℕ → List MetricsMessage → Bool
takes_all i ms = true

abbrev agent_plugin : Plugin
agent_plugin = record new_plugin { role = "agent" }

abbrev polled : List MetricsMessage
polled = node ∷ web ∷ web ∷ []

first_is_taken :
    (j : ℕ) → j < 1 → (metrics (dying j) agent ≡ some polled) × (takes_all j polled ≡ true)
first_is_taken zero h = (agent_gets, refl)
first_is_taken (suc j) h = absurd (omega (arith, h))

second_fails : poll_once dying takes_all agent 1 ≡ ([], some no_metrics)
unfolding poll_once metrics make_metrics_request
second_fails = refl

start_plugin-stops_example :
    start_plugin dying takes_all true agent_plugin (1 + suc 3) ≡ (polled ∷ [], some no_metrics)
unfolding recognised
start_plugin-stops_example =
    start_plugin-stops dying takes_all agent_plugin agent 1 3 (λ _. polled) [] no_metrics refl
      first_is_taken second_fails

abbrev pub formats : Formats
formats = record {
  value = λ v. "1";
  quote = λ s. "'" <> s <> "'";
  number = λ i. "5";
  format = λ s. s;
}

abbrev rounding : Rounding
rounding = record {
  round64 = λ b. pos 1;
  round32 = λ b. pos 1;
  parse_float = λ s. none;
  number = λ i. "1";
}

lookup-emit_datapoints_example :
    lookup "cpu" (emit_datapoints rounding [] (cpu ∷ mem ∷ []))
    ≡ last_gauge rounding "cpu" (cpu ∷ mem ∷ [])
lookup-emit_datapoints_example = lookup-emit_datapoints rounding "cpu" (cpu ∷ mem ∷ [])

abbrev unreadable : Datapoint
unreadable = record mem { value = text "NaN" }

abbrev cpu_gauge : Gauge
cpu_gauge = gauge_of web cpu 0x3FF0000000000000
