-- ===== src/Tests/Plugins.antt =====
-- Examples of plugins.
use dcos_metrics.Plugins.Metrics.{
  agent, decoded, get_container_list, is_master, wanted, metrics, Api, node_url, request_all,
  container_url, app_url, metrics-eq, make_metrics_request, get_container_metrics,
  container_metrics_from,
}
use dcos_metrics.Plugins.DatadogStandalone.{
  Encoded, message_tags, datapoint_to_dd_metric, resolve, message_series, datapoint_tags,
  metrics_of, encode_metric, append_tags, add_label_tags, add_message_tag,
}
use dcos_metrics.Prelude.{
  String, ◌≡◌, refl, inl, none, some, List, [], ◌∷◌, ◌==◌, if◌then◌else◌, Elem,
}
use dcos_metrics.Plugins.Convert.{
  Conversions, parse_datapoint_timestamp, datapoint_value_to_float64,
}
use dcos_metrics.Producers.{Datapoint}
use dcos_metrics.Tests.Values.{web_dimensions, node, cpu, web}
use dcos_metrics.Prelude.Int.{pos}
use dcos_metrics.Plugins.DatadogStandalone.Sharing.{IsEncodingOf, message_series_sound}

abbrev pub one_container : Api
one_container = record {
  message = λ url. if url == "http://localhost/v0/node" then decoded node else decoded web;
  containers = decoded ("web" ∷ []);
}

agent_wants :
    wanted one_container agent ≡ some (node_url ∷ container_url "web" ∷ app_url "web" ∷ [])
unfolding is_master get_container_list
agent_wants = refl

metrics-eq_example :
    metrics one_container agent
    ≡ request_all one_container (node_url ∷ container_url "web" ∷ app_url "web" ∷ [])
metrics-eq_example =
    metrics-eq one_container agent (node_url ∷ container_url "web" ∷ app_url "web" ∷ []) agent_wants

pub agent_gets : metrics one_container agent ≡ some (node ∷ web ∷ web ∷ [])
unfolding metrics make_metrics_request is_master get_container_metrics get_container_list
    container_metrics_from
agent_gets = refl

abbrev pub conversions : Conversions
conversions = record {
  of_int = λ i. 0;
  of_float32 = λ b. b;
  parse_float = λ s. none;
  parse_rfc3339 = λ s. some (pos 5000000000);
}

abbrev web_tags : List String
web_tags = message_tags web_dimensions

abbrev encoded_cpu : Encoded
encoded_cpu = record {
  metric = "cpu";
  time = pos 5;
  value = 0x3FF0000000000000;
  tags = "mesosId:m1" ∷ "containerId:web" ∷ "hostname:h1" ∷ "zone:b" ∷ "host:a" ∷ [];
  unit = "count";
  host = "h1";
}

cpu_sent : Elem encoded_cpu (message_series conversions (λ n. 0) "h1" web)
unfolding message_series metrics_of datapoint_to_dd_metric parse_datapoint_timestamp
    datapoint_value_to_float64 encode_metric resolve append_tags datapoint_tags message_tags
    add_label_tags add_message_tag
cpu_sent = inl refl

message_series_sound_example :
    (d : Datapoint) × Elem d (cpu ∷ []) × IsEncodingOf web_tags encoded_cpu d
message_series_sound_example =
    message_series_sound conversions (λ n. 0) "h1" web encoded_cpu refl cpu_sent
