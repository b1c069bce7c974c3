-- ===== src/Producers/Cache.antt =====
-- producers/http/http.go (and its copy in producers/prometheus/prometheus.go): the store between
-- the collectors' messages and the clients, its writer and its janitor.
pub mod History
pub mod Janitor
pub mod Interleaving
pub mod Expiry
pub mod Runs
pub mod Races
use dcos_metrics.Prelude.{
  ℕ, suc, ◌-◌, ◌^◌, String, Bool, Option, none, some, List, [], ◌∷◌, ◌<>◌, ◌==◌, if◌then◌else◌,
}
use dcos_metrics.Prelude.Int.{ℤ, pos, negsuc, ◌-ℤ◌, ◌*ℤ◌, ltb_ℤ}
use dcos_metrics.Producers.{
  Datapoint, MetricsMessage, node_metric_prefix, container_metric_prefix, app_metric_prefix,
  join_metric_name,
}
use dcos_metrics.Producers.SortTags.{sort_tags}
use dcos_metrics.Producers.Store.{Object, message, foreign, StoreApi}

-- The `switch message.Name` of the receiving goroutine: the name that the keys begin with.
unfoldable pub message_prefix : MetricsMessage → String
unfolding join_metric_name
message_prefix m =
    if m.name == node_metric_prefix
    then join_metric_name (m.name ∷ m.dimensions.mesos_id ∷ [])
    else if m.name == container_metric_prefix
    then join_metric_name (m.name ∷ m.dimensions.container_id ∷ [])
    else if m.name == app_metric_prefix
    then join_metric_name (m.name ∷ m.dimensions.container_id ∷ [])
    else ""

-- The loop over the sorted tags in `writeObjectToStore`.
unfoldable pub qualify : String → List (String × String) → String
unfolding join_metric_name
qualify name [] = name
qualify name ((k, v) ∷ pairs) =
    qualify (join_metric_name (name ∷ ("#" <> k <> ":" <> v) ∷ [])) pairs

unfoldable pub qualified_name : String → Datapoint → String
unfolding qualify sort_tags join_metric_name
qualified_name prefix d = qualify (join_metric_name (prefix ∷ d.name ∷ [])) (sort_tags d.tags)

-- The message that is stored for one datapoint.
abbrev pub single : Datapoint → MetricsMessage → MetricsMessage
single d m = record m { datapoints = d ∷ [] }

abbrev pub nanoseconds : ℤ
nanoseconds = pos 1000000000

-- `time.Duration` is an `int64` of nanoseconds, and `Time.Sub` stays at its ends.
unfoldable pub saturate : ℤ → ℤ
saturate d =
    if ltb_ℤ (pos (2 ^ 63 - 1)) d
    then pos (2 ^ 63 - 1)
    else if ltb_ℤ d (negsuc (2 ^ 63 - 1))
    then negsuc (2 ^ 63 - 1)
    else d

-- `time.Now().Sub(time.Unix(o.Timestamp, 0))`, at `now` nanoseconds since the epoch.
unfoldable pub age : ℤ → MetricsMessage → ℤ
unfolding saturate ◌-ℤ◌ ◌*ℤ◌
age now m = saturate (now -ℤ m.timestamp *ℤ nanoseconds)

unfoldable pub is_stale : ℤ → ℤ → MetricsMessage → Bool
unfolding age
is_stale expiry now m = ltb_ℤ expiry (age now m)

module _ (api : StoreApi) where
  open api use {Store, set, delete, objects}

  unfoldable pub write_object_to_store : Datapoint → MetricsMessage → String → Store → Store
  write_object_to_store d m prefix s = set s (qualified_name prefix d) (message (single d m))

  unfoldable pub write_all : List Datapoint → MetricsMessage → String → Store → Store
  write_all [] m prefix s = s
  write_all (d ∷ ds) m prefix s = write_all ds m prefix (write_object_to_store d m prefix s)

  -- What the goroutine of `Run` does with one message of its channel.
  unfoldable pub receive : MetricsMessage → Store → Store
  receive m s = write_all m.datapoints m (message_prefix m) s

  unfoldable pub receive_all : List MetricsMessage → Store → Store
  receive_all [] s = s
  receive_all (m ∷ ms) s = receive_all ms (receive m s)

  -- The loop of `janitor` over what `Objects()` returned. The clock is read anew for each object;
  -- `none` is the panic of the type assertion.
  unfoldable pub sweep : ℤ → (ℕ → ℤ) → ℕ → List (String × Object) → Store → Option Store
  sweep expiry now i [] s = some s
  sweep expiry now i ((k, foreign) ∷ l) s = none
  sweep expiry now i ((k, message m) ∷ l) s =
      sweep expiry now (suc i) l (if is_stale expiry (now i) m then delete s k else s)

  -- One tick of the janitor.
  unfoldable pub janitor_tick : ℤ → (ℕ → ℤ) → Store → Option Store
  janitor_tick expiry now s = sweep expiry now 0 (objects s) s
