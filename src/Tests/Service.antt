-- ===== src/Tests/Service.antt =====
-- Examples of config.go and dcos-metrics.go.
use dcos_metrics.Service.Config.{
  get_settings, read_settings, check_role, raise_expiry, node_info_over, informed_by, with_ids,
  with_client, set_client,
}
use dcos_metrics.Service.Client.{get_transport, add_iam}
use dcos_metrics.Prelude.{
  contains, ◌≡◌, refl, inl, true, none, some, List, [], ◌∷◌, arith, ◌==◌, if◌then◌else◌,
}
use dcos_metrics.Prelude.Int.{◌*ℤ◌}
use dcos_metrics.Service.Broadcast.{
  node, agent, Source, dispatch, producer_chans, broadcast, producer_is_configured, before_comma,
}
use dcos_metrics.Tests.Values
use dcos_metrics.Prelude.{
  ◌≡◌, refl, inl, true, none, some, List, [], ◌∷◌, arith, ◌==◌, if◌then◌else◌, Dict, lookup, Elem,
  latest,
}
use dcos_metrics.Service.Config.{
  Environment, Config, get_new_config, get_node_info, AgentConfig, get_node_info_from_url,
  new_config, with_ip, state_url, duration,
}
use dcos_metrics.Service.Client.{Client, unverified, new_metrics_client, get_transport, add_iam}
use dcos_metrics.Service.Config.Laws.{IsReady, get_new_config-IsReady}
use dcos_metrics.Producers.Store.{Object, message}
use dcos_metrics.Tests.Values.{web, web_key, only_web}
use dcos_metrics.Producers.{MetricsMessage}
use dcos_metrics.Service.{ok}
use dcos_metrics.Producers.Cache.{janitor_tick, receive_all}
use dcos_metrics.Producers.Store.Lists.{list_store}
use dcos_metrics.Prelude.Int.{pos}
use dcos_metrics.Producers.Cache.History.{writes}
use dcos_metrics.Service.Broadcast.Laws.{get-dispatch}
use dcos_metrics.Service.Freshness.{kept_for_two_polls}
use dcos_metrics.Tests.Cache.{only_web_clean, found_web}

abbrev here : Environment
here = record {
  certificates = record { read_file = λ _. none; parse_pem = λ _. none; reads_iam = λ _. true };
  parse_flags = λ args c. ok (record c { dcos_role = "agent" });
  read_file = λ _. none;
  unmarshal = λ b c. none;
  new_node_info = λ client role url. some (record {
    detect_ip = some "10.0.0.1";
    mesos_id = if url == state_url true then none else some "m1";
    cluster_id = some "c1";
  });
}

abbrev plain_client : Client
plain_client = record { tls = unverified; iam = none }

abbrev polling_agent : AgentConfig
polling_agent = record {
  poll_period = duration 60;
  port = 5051;
  request_protocol = "http";
  request_timeout = duration 5;
  http_client = some plain_client;
}

abbrev loaded : Config
loaded = record new_config {
  dcos_role = "agent";
  mesos_agent = some polling_agent;
  node_info = record {
    ip_address = "10.0.0.1";
    mesos_id = "m1";
    cluster_id = "c1";
    hostname = "10.0.0.1";
    leader = "leader.mesos:5050";
  };
}

loads : get_new_config here [] ≡ ok loaded
unfolding get_new_config get_settings read_settings check_role contains raise_expiry get_node_info
    node_info_over get_node_info_from_url new_metrics_client get_transport add_iam informed_by
    with_ids with_client with_ip set_client ◌*ℤ◌
loads = refl

get_new_config-IsReady_example : IsReady here loaded
get_new_config-IsReady_example = get_new_config-IsReady here [] loaded loads

kept_for_two_polls_example :
    (t : Dict Object) × (janitor_tick list_store loaded.http.cache_expiry
        (λ i. pos 160000000000)
        only_web
      ≡ some t)
    × (lookup web_key t ≡ some (message web))
kept_for_two_polls_example =
    kept_for_two_polls here list_store [] loaded polling_agent 60000000000 only_web web_key web 100
      (λ i. 160000000000) loads refl refl (omega arith) only_web_clean found_web refl (omega arith)
      (λ i. (omega arith, omega arith))

abbrev events : List (Source × MetricsMessage)
events = (node, Values.node) ∷ (agent, web) ∷ []

received : Elem (Values.node ∷ web ∷ []) (dispatch events producer_chans)
unfolding dispatch broadcast producer_chans producer_is_configured before_comma
received = inl refl

get-dispatch_example :
    lookup web_key (receive_all list_store (Values.node ∷ web ∷ []) [])
    ≡ latest web_key (writes (Values.node ∷ web ∷ [])) none
get-dispatch_example = get-dispatch list_store events (Values.node ∷ web ∷ []) web_key received
