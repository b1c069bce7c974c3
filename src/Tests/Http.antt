-- ===== src/Tests/Http.antt =====
-- Examples of producers/http/handlers.go.
use dcos_metrics.Prelude.{
  String, ◌≡◌, refl, inl, some, [], ◌∷◌, lookup, Elem, insert, keys, str_le, join, lookup_or,
  contains, erase, inr, List, true,
}
use dcos_metrics.Producers.{MetricsMessage, join_metric_name, container_metric_prefix}
use dcos_metrics.Producers.Http.{
  container_handler, node_handler, encode, combined, json, answer, encodable, containers_handler,
  ids,
}
use dcos_metrics.Producers.Cache.Interleaving.{Reach, State, written, next, here, write, start}
use dcos_metrics.Tests.Values.{
  node_key, cpu, web_app_key, minute, web_dimensions, node, web_app, web_key, web,
}
use dcos_metrics.Producers.Store.Lists.{list_store, restrict, normal}
use dcos_metrics.Producers.Store.{message, matches}
use dcos_metrics.Prelude.Int.{pos}
use dcos_metrics.Producers.Http.Endpoints.{
  node_handler_complete, container_handler_prefix, container_handler_sound,
}
use dcos_metrics.Producers.Cache.{write_object_to_store, qualified_name, message_prefix}
use dcos_metrics.Tests.Cache.{after_web, after_web_reached, found_after_web}
use dcos_metrics.Producers.Http.Ids.{containers_handler_complete}

abbrev after_app : State list_store
after_app = written list_store cpu web_app (start list_store)

after_app_reached : Reach list_store minute (start list_store) after_app
after_app_reached = next here (write cpu web_app)

found_after_app : lookup web_app_key after_app.store ≡ some (message web_app)
unfolding lookup write_object_to_store insert qualified_name keys str_le join message_prefix
    lookup_or
found_after_app = refl

abbrev after_node : State list_store
after_node = written list_store cpu node (start list_store)

after_node_reached : Reach list_store minute (start list_store) after_node
after_node_reached = next here (write cpu node)

found_after_node : lookup node_key after_node.store ≡ some (message node)
unfolding lookup write_object_to_store insert qualified_name keys str_le join message_prefix
    lookup_or
found_after_node = refl

-- Asked for the container `we`, the endpoint answers with those of `web`.
container_handler_prefix_example :
    (c : MetricsMessage) × (container_handler list_store "we" after_web.store ≡ encode (combined c))
    × Elem cpu c.datapoints
container_handler_prefix_example =
    container_handler_prefix list_store after_web after_web_reached "we" "b" web_key web cpu
      found_after_web refl refl (inl refl)

node_handler_complete_example :
    (c : MetricsMessage) × (node_handler list_store after_node.store ≡ encode (combined c))
    × Elem cpu c.datapoints
node_handler_complete_example =
    node_handler_complete list_store after_node after_node_reached node_key node cpu
      found_after_node refl (inl refl)

abbrev the_answer : MetricsMessage
the_answer = record {
  name = "";
  datapoints = cpu ∷ [];
  dimensions = web_dimensions;
  timestamp = pos 0;
}

web_answered : container_handler list_store "web" after_web.store ≡ json (combined the_answer) ∷ []
unfolding container_handler answer restrict normal write_object_to_store insert matches contains
    qualified_name keys str_le join message_prefix lookup_or lookup erase encodable
web_answered = refl

container_handler_sound_example :
    (k : String) × (m : MetricsMessage) × (lookup k after_web.store ≡ some (message m))
    × (contains (join_metric_name (container_metric_prefix ∷ "web" ∷ [])) k ≡ true)
    × Elem cpu m.datapoints
container_handler_sound_example =
    container_handler_sound list_store after_web after_web_reached "web" the_answer cpu web_answered
      (inl refl)

containers_handler_complete_example :
    (answered : List String) × (containers_handler list_store after_app.store
      ≡ json (ids answered) ∷ [])
    × Elem "web" answered
containers_handler_complete_example =
    containers_handler_complete list_store after_app after_app_reached web_app_key web_app
      found_after_app (inr refl)
