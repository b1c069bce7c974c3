-- ===== src/Tests/EndToEnd.antt =====
-- Examples of a plugin's poll of the HTTP producer.
use dcos_metrics.Tests.Values.{node, web, cpu, web_key}
use dcos_metrics.Plugins.Metrics.{
  agent, Api, metrics, is_master, container_url, make_metrics_request, get_container_list,
  container_metrics_from, decoded, get_container_metrics,
}
use dcos_metrics.Prelude.{
  refl, ◌≡◌, inl, false, some, [], ◌∷◌, ◌==◌, if◌then◌else◌, Elem, contains, lookup, erase,
}
use dcos_metrics.Prelude.{insert, keys, str_le, join, lookup_or}
use dcos_metrics.Producers.Http.{
  answer, encode, encodable, combine_and_encode, combine_messages, combine_from, answer_ids,
  unique_ids, fits_json, container_handler, containers_handler,
}
use dcos_metrics.Producers.Cache.{qualified_name, message_prefix, write_object_to_store}
use dcos_metrics.Producers.Store.Lists.{restrict, normal, list_store}
use dcos_metrics.Producers.Store.{matches}
use dcos_metrics.Producers.{MetricsMessage}
use dcos_metrics.Prelude.Int.{pos}
use dcos_metrics.Plugins.EndToEnd.{
  sent_datapoint, reply_of, metrics-stored, ids_reply, sent_message,
}
use dcos_metrics.Tests.Cache.{after_web, after_web_reached, found_after_web}

abbrev served : Api
served = record {
  message = λ url.
      if url == container_url "web"
      then reply_of (λ v. v) (container_handler list_store "web" after_web.store)
      else decoded node;
  containers = ids_reply (containers_handler list_store after_web.store);
}

abbrev sent_web : MetricsMessage
sent_web = record web { name = ""; timestamp = pos 0 }

polled : metrics served agent ≡ some (node ∷ sent_web ∷ node ∷ [])
unfolding metrics make_metrics_request is_master get_container_metrics get_container_list
    container_metrics_from reply_of ids_reply container_handler containers_handler answer encode
    encodable combine_and_encode combine_messages combine_from answer_ids unique_ids fits_json
    qualified_name message_prefix write_object_to_store insert keys str_le join lookup_or restrict
    normal matches sent_message contains lookup erase
polled = refl

agent_asks : is_master agent ≡ false
unfolding is_master
agent_asks = refl

metrics-stored_example :
    (c : MetricsMessage) × Elem c (node ∷ sent_web ∷ node ∷ [])
    × Elem (sent_datapoint (λ v. v) cpu) c.datapoints
metrics-stored_example =
    metrics-stored list_store after_web after_web_reached (λ v. v) served agent web_key web cpu
      (node ∷ sent_web ∷ node ∷ []) agent_asks refl refl found_after_web refl (inl refl) polled
