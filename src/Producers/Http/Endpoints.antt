-- ===== src/Producers/Http/Endpoints.antt =====
-- The container and node endpoints of producers/http/handlers.go, in every state that the receiving
-- goroutine and the janitor of producers/http/http.go can reach.
use text.Mathlib.TextLemmas.{append_assoc as text_assoc}
use dcos_metrics.Prelude.{
  String, ◌≡◌, refl, sym, ap, ◌∙◌, ◌≢◌, true, some, [], ◌∷◌, arith, join, ◌<>◌, contains, Elem,
}
use dcos_metrics.Producers.Cache.{message_prefix}
use dcos_metrics.Producers.{
  join_metric_name, MetricsMessage, container_metric_prefix, node_metric_prefix, app_metric_prefix,
  Datapoint,
}
use dcos_metrics.Producers.Store.{StoreApi, foreign, message, matches}
use dcos_metrics.Prelude.Int.{ℤ}
use dcos_metrics.Producers.Cache.Interleaving.{State, Reach, start, Reach-IsSound}
use dcos_metrics.Producers.Http.{
  container_app_handler, node_handler, container_handler, json, encode, combined,
}
use dcos_metrics.Producers.Http.Lookups.{matches-qualified_name, answer_complete, answer_sound}

pub message_prefix-container :
    (m : MetricsMessage) (id : String)
    → m.name ≡ container_metric_prefix
    → m.dimensions.container_id ≡ id
    → message_prefix m ≡ join_metric_name (container_metric_prefix ∷ id ∷ [])
unfolding message_prefix
message_prefix-container m id n e = rw (n, e) refl

pub message_prefix-app :
    (m : MetricsMessage) (id : String)
    → m.name ≡ app_metric_prefix
    → m.dimensions.container_id ≡ id
    → message_prefix m ≡ join_metric_name (app_metric_prefix ∷ id ∷ [])
unfolding message_prefix
message_prefix-app m id n e = rw (n, e) refl

message_prefix-node :
    (m : MetricsMessage)
    → m.name ≡ node_metric_prefix
    → message_prefix m ≡ node_metric_prefix <> ("." <> m.dimensions.mesos_id)
unfolding message_prefix join
message_prefix-node m n = rw n refl

join-append :
    (p a rest : String)
    → join_metric_name (p ∷ (a <> rest) ∷ []) ≡ join_metric_name (p ∷ a ∷ []) <> rest
unfolding join_metric_name join
join-append p a rest = sym (text_assoc p ("." <> a) rest ∙ ap (λ x. p <> x) (text_assoc "." a rest))

module _ (api : StoreApi) {expiry : ℤ} (t : State api) (r : Reach api expiry (start api) t) where
  open api use {get, get_by_regex}

  pub clean : (k : String) → get t.store k ≢ some foreign
  clean k e = let (m, d, same, one, key) = (Reach-IsSound api r).filed k foreign e in cc

  -- A stored message of one datapoint matches what its prefix begins with.
  stored_matches :
      (p rest k : String) (m : MetricsMessage)
      → get t.store k ≡ some (message m)
      → message_prefix m ≡ p <> rest
      → matches (p ∷ []) k ≡ true
  stored_matches p rest k m g e =
      let (m', d, same, one, key) = (Reach-IsSound api r).filed k (message m) g in
      let same' : m ≡ m' = cc in rw key (rw (← same') (rw e (matches-qualified_name p rest d)))

  -- In every state that the writer and the janitor reach from the empty store: a datapoint that is stored for a container whose id begins with the id asked for (be it that id or a longer one) is in the message that the container's endpoint encodes.
  pub container_handler_prefix :
      (id rest k : String) (m : MetricsMessage) (d : Datapoint)
      → get t.store k ≡ some (message m)
      → m.name ≡ container_metric_prefix
      → m.dimensions.container_id ≡ id <> rest
      → Elem d m.datapoints
      → (c : MetricsMessage) × (container_handler api id t.store ≡ encode (combined c))
        × Elem d c.datapoints
  unfolding container_handler
  container_handler_prefix id rest k m d g n e h =
      answer_complete api t.store clean _ _ k m d g
        (stored_matches _ rest k m g (
          message_prefix-container m (id <> rest) n e
          ∙ join-append container_metric_prefix id rest))
        h

  -- The same of the endpoint of a container's application metrics: in every reachable state a datapoint that is stored for an application in a container whose id begins with the id asked for is in the message that the endpoint encodes.
  pub container_app_handler_prefix :
      (id rest k : String) (m : MetricsMessage) (d : Datapoint)
      → get t.store k ≡ some (message m)
      → m.name ≡ app_metric_prefix
      → m.dimensions.container_id ≡ id <> rest
      → Elem d m.datapoints
      → (c : MetricsMessage) × (container_app_handler api id t.store ≡ encode (combined c))
        × Elem d c.datapoints
  unfolding container_app_handler
  container_app_handler_prefix id rest k m d g n e h =
      answer_complete api t.store clean _ _ k m d g
        (stored_matches _ rest k m g
          (message_prefix-app m (id <> rest) n e ∙ join-append app_metric_prefix id rest))
        h

  -- In every state that the writer and the janitor reach from the empty store, a datapoint that is stored for a node is in the message that the node endpoint encodes.
  pub node_handler_complete :
      (k : String) (m : MetricsMessage) (d : Datapoint)
      → get t.store k ≡ some (message m)
      → m.name ≡ node_metric_prefix
      → Elem d m.datapoints
      → (c : MetricsMessage) × (node_handler api t.store ≡ encode (combined c))
        × Elem d c.datapoints
  unfolding node_handler
  node_handler_complete k m d g n h =
      answer_complete api t.store clean _ _ k m d g
        (stored_matches _ _ k m g (message_prefix-node m n)) h

  -- In every reachable state: where the container's endpoint answers with a message, each of its datapoints is in a stored message whose key has the prefix of the id asked for in it.
  pub container_handler_sound :
      (id : String) (c : MetricsMessage) (d : Datapoint)
      → container_handler api id t.store ≡ json (combined c) ∷ []
      → Elem d c.datapoints
      → (k : String) × (m : MetricsMessage) × (get t.store k ≡ some (message m))
        × (contains (join_metric_name (container_metric_prefix ∷ id ∷ [])) k ≡ true)
        × Elem d m.datapoints
  unfolding container_handler
  container_handler_sound id c d e h =
      let (k, m, g, f, b) = answer_sound api t.store clean _ _ c d e h in
      (k, m, g, unfold matches in ground (arith, f), b)
