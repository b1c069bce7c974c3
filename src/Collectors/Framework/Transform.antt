-- ===== src/Collectors/Framework/Transform.antt =====
-- `transform` of collectors/framework/framework.go.
pub mod Laws
use dcos_metrics.Prelude.{
  ℕ, zero, suc, ◌+◌, ◌-◌, ◌≤◌, ◌<◌, String, ◌≡◌, refl, sym, ap, ◌∙◌, ◌≢◌, ◌⊎◌, inl, inr, Bool, true,
  false, ◌&&◌, ◌||◌, not, Option, none, some, List, [], ◌∷◌, ◌++◌, arith, ◌==◌, eq_iff,
  if◌then◌else◌, Dict, map, insert_all,
}
use dcos_metrics.Producers.{
  Value, MetricsMessage, app_metric_prefix, Datapoint, is_nan, no_dimensions, text,
}
use dcos_metrics.Collectors.{NodeInfo}
use dcos_metrics.Collectors.Framework.Extract.{
  Outcome, AvroRecord, Error, missing_field, bad_object, extract, bad_datapoints, no_avro_record,
}
use dcos_metrics.Prelude.Int.{ℤ, pos}
use dcos_metrics.Collectors.Agent.Tasks.{ContainerTaskRels}

-- What the code uses of the vendored github.com/linkedin/goavro and of encoding/json: a parameter.
pub record AvroApi : Type 1 where
  pub Datum : Type 0
  -- the type assertions to `*goavro.Record`, `[]interface{}` and `float64`
  pub is_record : Datum → Bool
  pub slice : Datum → Option (List Datum)
  pub of_slice : List Datum → Datum
  pub as_float64 : Datum → Option ℕ
  -- `Record.Get` and `Record.Set`
  pub get : Datum → String → Option Datum
  pub set : Datum → String → Value → Datum
  -- `createObjectFromRecord`: marshalled to JSON and read back
  pub create_object : Datum → Option AvroRecord

abbrev pub metrics_value_key : String
metrics_value_key = "dcos.metrics.value"

abbrev pub empty_message : NodeInfo → MetricsMessage
empty_message node_info = record {
  name = app_metric_prefix;
  datapoints = [];
  dimensions = record no_dimensions {
    cluster_id = node_info.cluster_id;
    mesos_id = node_info.mesos_id;
    hostname = node_info.hostname;
  };
  timestamp = pos 0;
}

-- Message-level labels become tags of each datapoint.
unfoldable pub tag_datapoint : Dict String → Datapoint → Datapoint
tag_datapoint labels d = record d { tags = insert_all (insert_all [] labels) d.tags }

unfoldable pub tag_datapoints : MetricsMessage → MetricsMessage
tag_datapoints pmm = record pmm {
  datapoints = map (tag_datapoint pmm.dimensions.labels) pmm.datapoints;
  dimensions = record pmm.dimensions { labels = [] };
}

-- `if err := …; err != nil { return pmm, err }`.
abbrev pub and_then : Outcome → (MetricsMessage → Outcome) → Outcome
and_then (pmm, none) k = k pmm
and_then (pmm, some e) k = (pmm, some e)

-- A step that fails without touching the message.
abbrev pub require : {A : Type 0} → MetricsMessage → Error → Option A → (A → Outcome) → Outcome
require pmm e none k = (pmm, some e)
require pmm e (some a) k = k a

module _ (api : AvroApi) where
  open api use {Datum, is_record, as_float64, get, set}

  -- The loop that puts a text in the place of NaN.
  unfoldable pub patch_value : Datum → Option ℕ → Datum
  patch_value dp none = dp
  patch_value dp (some bits) = if is_nan bits then set dp metrics_value_key (text "NaN") else dp

  unfoldable pub patch : Datum → Datum
  patch dp =
      if is_record dp
      then elim (get dp metrics_value_key) [
        | none ↦ dp
        | some value ↦ patch_value dp (as_float64 value)
      ]
      else dp

module _ (api : AvroApi) (print : Value → String) (now : ℤ) (time : String) where
  open api use {Datum, is_record, slice, of_slice, get, create_object}

  -- `transform` after the type assertion.
  unfoldable pub transform_record : Datum → ContainerTaskRels → MetricsMessage → Outcome
  transform_record datum ctr pmm = require pmm (missing_field "tags") (get datum "tags") λ tags.
      require pmm bad_object (create_object tags) λ tag_data.
        and_then (extract print ctr now time tag_data pmm) λ pmm₁.
          require pmm₁ (missing_field "datapoints") (get datum "datapoints") λ dps.
            require pmm₁ bad_datapoints (slice dps) λ decoded.
              require pmm₁ bad_object (create_object (of_slice (map (patch api) decoded)))
                λ datapoint_data.
                  and_then (extract print ctr now time datapoint_data pmm₁)
                    λ pmm₂. (tag_datapoints pmm₂, none)

  unfoldable pub transform : Datum → NodeInfo → ContainerTaskRels → Outcome
  transform datum node_info ctr =
      if is_record datum
      then transform_record datum ctr (empty_message node_info)
      else (empty_message node_info, some no_avro_record)
