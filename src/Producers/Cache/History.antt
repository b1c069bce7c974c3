-- ===== src/Producers/Cache/History.antt =====
-- The store against the history of messages that the producer has received.
use dcos_metrics.Prelude.{
  String, ◌≡◌, refl, sym, ap, ap₂, ◌∙◌, List, [], ◌∷◌, ◌++◌, latest, latest-append,
}
use dcos_metrics.Producers.{Datapoint, MetricsMessage, join_metric_name}
use dcos_metrics.Producers.SortTags.Laws.{SameMap, sort_tags-SameMap}
use dcos_metrics.Producers.Store.{Object, message, StoreApi}
use dcos_metrics.Producers.Cache.{
  message_prefix, qualify, qualified_name, single, write_object_to_store, write_all, receive,
  receive_all,
}

-- What one message writes, in order, and what a history of messages writes.
abbrev pub writes_of : List Datapoint → MetricsMessage → String → List (String × Object)
writes_of [] m prefix = []
writes_of (d ∷ ds) m prefix =
    (qualified_name prefix d, message (single d m)) ∷ writes_of ds m prefix

abbrev pub writes : List MetricsMessage → List (String × Object)
writes [] = []
writes (m ∷ ms) = writes_of m.datapoints m (message_prefix m) ++ writes ms

module _ (api : StoreApi) where
  open api use {Store, get, get-set}

  get-write_all :
      (k : String) (ds : List Datapoint) (m : MetricsMessage) (prefix : String) (s : Store)
      → get (write_all api ds m prefix s) k ≡ latest k (writes_of ds m prefix) (get s k)
  unfolding write_all write_object_to_store
  get-write_all k [] m prefix s = refl
  get-write_all k (d ∷ ds) m prefix s =
      get-write_all k ds m prefix (write_object_to_store api d m prefix s)
      ∙ ap (latest k (writes_of ds m prefix))
          (get-set s (qualified_name prefix d) k (message (single d m)))

  -- After any messages the store holds under each key the last single-datapoint message that was
  -- written under it, and what was there before under a key that none of them wrote.
  pub get-receive_all :
      (k : String) (history : List MetricsMessage) (s : Store)
      → get (receive_all api history s) k ≡ latest k (writes history) (get s k)
  unfolding receive_all receive
  get-receive_all k [] s = refl
  get-receive_all k (m ∷ ms) s =
      get-receive_all k ms (receive api m s)
      ∙ ap (latest k (writes ms)) (get-write_all k m.datapoints m (message_prefix m) s)
      ∙ sym (latest-append k (writes_of m.datapoints m (message_prefix m)) (writes ms) (get s k))

-- The key of a datapoint does not depend on the order in which Go ranges over its tags.
pub qualified_name-SameMap :
    (prefix : String) (d e : Datapoint)
    → d.name ≡ e.name
    → SameMap d.tags e.tags
    → qualified_name prefix d ≡ qualified_name prefix e
unfolding qualified_name
qualified_name-SameMap prefix d e h k =
    ap₂ (λ n pairs. qualify (join_metric_name (prefix ∷ n ∷ [])) pairs) h (sort_tags-SameMap k)
