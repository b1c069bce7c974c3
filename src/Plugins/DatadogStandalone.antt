-- ===== src/Plugins/DatadogStandalone.antt =====
-- `messagesToSeries` and `datapointToDDMetric` of plugins/datadog-standalone/datadog-standalone.go,
-- with the memory that the metrics of a series share.
pub mod Sharing
pub mod Hosts
pub mod Post
use dcos_metrics.Prelude.{
  ◌>>=◌, ℕ, zero, suc, ◌+◌, ◌-◌, ◌≤◌, ◌<◌, String, ◌≡◌, refl, sym, ap, ◌∙◌, ◌≢◌, ◌⊎◌, inl, inr,
  Bool, true, false, ◌&&◌, ◌||◌, not, Option, none, some, List, [], ◌∷◌, ◌++◌, arith, ◌==◌, eq_iff,
  if◌then◌else◌, take, leb, ◌<>◌, Dict, length, map, concat_map,
}
use dcos_metrics.Plugins.Convert.{
  Conversions, parse_datapoint_timestamp, datapoint_value_to_float64, unix_seconds,
}
use dcos_metrics.Producers.{Dimensions, MetricsMessage, Datapoint, is_nan, is_inf}
use dcos_metrics.Prelude.Int.{ℤ}

-- A metric's tags are a slice: the message's tags and then `extra` more cells of the array behind
-- them, or an array of its own.
pub data TagSlice : Type 0 where
  shared : (extra : ℕ) → TagSlice
  own : List String → TagSlice

-- `DDMetric`, whose host is a pointer to a field of the loop variable, and so is left out here.
pub record Metric : Type 0 where
  pub metric : String
  pub time : ℤ
  pub value : ℕ
  pub tags : TagSlice
  pub unit : String

-- A metric as it is encoded, when the whole series has been built.
pub record Encoded : Type 0 where
  pub metric : String
  pub time : ℤ
  pub value : ℕ
  pub tags : List String
  pub unit : String
  pub host : String

abbrev pub tag : String → String → String
tag key value = key <> ":" <> value

-- `addMessageTag`.
unfoldable pub add_message_tag : List String → String → String → List String
add_message_tag tags key value = if value == "" then tags else tags ++ tag key value ∷ []

unfoldable pub add_label_tags : Dict String → List String → List String
add_label_tags [] tags = tags
add_label_tags ((k, v) ∷ l) tags = add_label_tags l (add_message_tag tags k v)

-- `messageTags` of a message.
unfoldable pub message_tags : Dimensions → List String
message_tags d =
    add_label_tags
      (("mesosId", d.mesos_id)
        ∷ ("clusterId", d.cluster_id)
        ∷ ("containerId", d.container_id)
        ∷ ("executorId", d.executor_id)
        ∷ ("frameworkName", d.framework_name)
        ∷ ("frameworkId", d.framework_id)
        ∷ ("frameworkRole", d.framework_role)
        ∷ ("frameworkPrincipal", d.framework_principal)
        ∷ ("hostname", d.hostname)
        ∷ ("taskId", d.task_id)
        ∷ ("taskName", d.task_name)
        ∷ [])
      (add_label_tags d.labels [])

unfoldable pub datapoint_tags : Dict String → List String
datapoint_tags [] = []
datapoint_tags ((k, v) ∷ l) = tag k v ∷ datapoint_tags l

-- A write of `xs` to the front of the spare cells.
unfoldable pub overwrite : List String → List String → List String
overwrite [] cells = cells
overwrite (x ∷ xs) [] = x ∷ overwrite xs []
overwrite (x ∷ xs) (c ∷ cells) = x ∷ overwrite xs cells

-- `append(messageTags, datapointTags...)`: where the spare cells of the array suffice they are
-- written in place, otherwise the slice moves to a new array.
unfoldable pub append_tags : ℕ → List String → List String → List String → TagSlice × List String
append_tags spare tags extra cells =
    if leb (length extra) spare
    then (shared (length extra), overwrite extra cells)
    else (own (tags ++ extra), cells)

unfoldable pub datapoint_to_dd_metric :
    Conversions → ℕ → List String → Datapoint → List String → Option (Metric × List String)
datapoint_to_dd_metric c spare tags d cells = do
  t ← parse_datapoint_timestamp c d.timestamp
  v ← datapoint_value_to_float64 c d.value
  if is_nan v || is_inf v
      then none
      else let (slice, cells') = append_tags spare tags (datapoint_tags d.tags) cells in
        some (
          record { metric = d.name; time = unix_seconds t; value = v; tags = slice; unit = d.unit },
          cells',
        )

-- The inner loop: the metrics of a message, and the spare cells at its end.
unfoldable pub metrics_of :
    Conversions → ℕ → List String → List Datapoint → List String → List Metric × List String
metrics_of c spare tags [] cells = ([], cells)
metrics_of c spare tags (d ∷ ds) cells = elim (datapoint_to_dd_metric c spare tags d cells) [
  | none ↦ metrics_of c spare tags ds cells
  | some (m, cells') ↦ let (ms, last) = metrics_of c spare tags ds cells' in (m ∷ ms, last)
]

-- What a slice shows once the cells have their last contents.
unfoldable pub resolve : List String → List String → TagSlice → List String
resolve tags cells (own l) = l
resolve tags cells (shared extra) = tags ++ take extra cells

unfoldable pub encode_metric : List String → List String → String → Metric → Encoded
encode_metric tags cells host m = record {
  metric = m.metric;
  time = m.time;
  value = m.value;
  tags = resolve tags cells m.tags;
  unit = m.unit;
  host = host;
}

-- `spare n` is what the runtime leaves free behind a slice that was grown to `n` elements.
module _ (c : Conversions) (spare : ℕ → ℕ) where
  unfoldable pub message_series : String → MetricsMessage → List Encoded
  message_series host m =
      let tags = message_tags m.dimensions in
      let (ms, cells) = metrics_of c (spare (length tags)) tags m.datapoints [] in
      map (encode_metric tags cells host) ms

  -- In Go 1.9 `message` is one variable for the whole loop, and every host points into it.
  unfoldable pub last_host : String → List MetricsMessage → String
  last_host host [] = host
  last_host host (m ∷ ms) = last_host m.dimensions.hostname ms

  unfoldable pub messages_to_series : List MetricsMessage → List Encoded
  messages_to_series messages = concat_map (message_series (last_host "" messages)) messages
