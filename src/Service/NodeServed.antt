-- ===== src/Service/NodeServed.antt =====
-- The node collector (collectors/node/node.go), the HTTP producer's writer (producers/http/http.go) and the node endpoint (producers/http/handlers.go) together.
use dcos_metrics.Collectors.Node.{Collector, transform, node_message}
use dcos_metrics.Producers.Http.{encode, combined}
use mathlib.Core.List.{append-nil}
use mathlib.Core.Path.{subst}
use dcos_metrics.Prelude.{◌≡◌, refl, sym, ap, ◌∙◌, inl, some, Elem}
use dcos_metrics.Producers.Store.{StoreApi, HasUniqueKeys, message}
use dcos_metrics.Prelude.Int.{ℤ}
use dcos_metrics.Producers.Cache.Interleaving.{State, Reach, start}
use dcos_metrics.Producers.Cache.{receive_all, receive, message_prefix, qualified_name, single}
use dcos_metrics.Producers.{Datapoint, MetricsMessage}
use dcos_metrics.Producers.Cache.History.{writes, writes_of}
use dcos_metrics.Producers.Http.{node_handler}
use dcos_metrics.Producers.Cache.Runs.{write_all-Reached, get-receive}
use dcos_metrics.Producers.Http.Endpoints.{node_handler_complete}

module _ (api : StoreApi) {expiry : ℤ} (t : State api) (r : Reach api expiry (start api) t) where
  open api use {get}

  -- In every state of the store that the writer and the janitor reach: once the message of a poll of the host is received, the node endpoint encodes a message that has every datapoint of the poll in it, if no two of them get the same key.
  pub node_poll-served :
      (c : Collector) (d : Datapoint)
      → HasUniqueKeys (writes (transform c))
      → Elem d c.node_metrics
      → (m : MetricsMessage) × (node_handler api (receive_all api (transform c) t.store)
          ≡ encode (combined m))
        × Elem d m.datapoints
  unfolding transform receive_all receive
  node_poll-served c d u i =
      let m = node_message c in
      let (after, reached, same, idle) = write_all-Reached api expiry m.datapoints m t r in
      let own : HasUniqueKeys (writes_of m.datapoints m (message_prefix m)) =
        subst HasUniqueKeys (append-nil (writes_of m.datapoints m (message_prefix m))) u in
      let found = get-receive api m d t.store own i in
      let key = qualified_name (message_prefix m) d in
      let stored : get after.store key ≡ some (message (single d m)) =
        ap (λ s. get s key) same ∙ found in
      let (answer, e, has) =
        node_handler_complete api after reached key (single d m) d stored refl (inl refl) in
      (answer, ap (node_handler api) (sym same) ∙ e, has)
