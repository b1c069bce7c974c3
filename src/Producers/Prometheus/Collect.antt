-- ===== src/Producers/Prometheus/Collect.antt =====
-- `Collect` of producers/prometheus/prometheus.go and its helpers.
pub mod Labels
pub mod Laws
use dcos_metrics.Prelude.{
  ℕ, String, Bool, true, Option, none, some, List, [], ◌∷◌, ◌++◌, if◌then◌else◌, keys, concat_map,
  Dict, lookup_or, insert_all, insert, map, zero, suc, ◌+◌, ◌-◌, ◌≤◌, ◌<◌, ◌≡◌, refl, sym, ap, ◌∙◌,
  ◌≢◌, ◌⊎◌, inl, inr, false, ◌&&◌, ◌||◌, not, arith, ◌==◌, eq_iff,
}
use dcos_metrics.Prelude.Int.{ℤ}
use dcos_metrics.Producers.{
  Dimensions, Value, Datapoint, float64, is_nan, float32, int, int32, int64, uint, uint32, uint64,
}
use dcos_metrics.Producers.Store.{Object, message, foreign}
use dcos_metrics.Producers.Prometheus.Sanitize.{sanitize, codes}

-- What Go's conversions do to a number: a parameter, on bit patterns.
pub record FloatConversions : Type 0 where
  pub of_int : ℤ → ℕ
  pub of_uint : ℕ → ℕ
  pub of_float32 : ℕ → ℕ

-- `coerceToFloat`; `none` is its error.
unfoldable pub coerce_to_float : FloatConversions → Value → Option ℕ
coerce_to_float f (float64 bits) = if is_nan bits then none else some bits
coerce_to_float f (float32 bits) = some (f.of_float32 bits)
coerce_to_float f (int i) = some (f.of_int i)
coerce_to_float f (int32 i) = some (f.of_int i)
coerce_to_float f (int64 i) = some (f.of_int i)
coerce_to_float f (uint n) = some (f.of_uint n)
coerce_to_float f (uint32 n) = some (f.of_uint n)
coerce_to_float f (uint64 n) = some (f.of_uint n)
coerce_to_float f _ = none

abbrev pub dimension_entries : Dimensions → Dict String
dimension_entries dims =
    ("mesos_id", dims.mesos_id)
    ∷ ("cluster_id", dims.cluster_id)
    ∷ ("container_id", dims.container_id)
    ∷ ("executor_id", dims.executor_id)
    ∷ ("framework_name", dims.framework_name)
    ∷ ("framework_id", dims.framework_id)
    ∷ ("framework_role", dims.framework_role)
    ∷ ("framework_principal", dims.framework_principal)
    ∷ ("task_name", dims.task_name)
    ∷ ("task_id", dims.task_id)
    ∷ ("hostname", dims.hostname)
    ∷ []

unfoldable pub dims_to_map : Dimensions → Dict String
dims_to_map dims = insert_all (dimension_entries dims) dims.labels

-- `datapointLabels`. Its datapoint is a pointer in the source; here it is what the pointer shows when
-- it is read.
pub record DatapointLabels : Type 0 where
  pub datapoint : Datapoint
  pub labels : Dict String

-- Go 1.9 has one variable `d` for the whole loop over `m.Datapoints`, and every `&d` points to it. So
-- each entry of a message shows the message's last datapoint once the loop is over.
unfoldable pub loop_variable : Datapoint → List Datapoint → Datapoint
loop_variable d [] = d
loop_variable d (e ∷ ds) = loop_variable e ds

abbrev pub ByName : Type 0
ByName = Dict (List DatapointLabels)

-- The body of that loop for `d`, where `shown` is what the variable holds at the end.
unfoldable pub add_datapoint : Datapoint → Dict String → Datapoint → ByName → ByName
add_datapoint shown dims d rval =
    insert d.name
      (lookup_or [] d.name rval
        ++ record { datapoint = shown; labels = insert_all (insert_all [] dims) d.tags } ∷ [])
      rval

unfoldable pub add_datapoints : Datapoint → Dict String → List Datapoint → ByName → ByName
add_datapoints shown dims [] rval = rval
add_datapoints shown dims (d ∷ ds) rval =
    add_datapoints shown dims ds (add_datapoint shown dims d rval)

unfoldable pub add_object : Object → ByName → ByName
add_object foreign rval = rval
add_object (message m) rval = elim m.datapoints [
  | [] ↦ rval
  | d ∷ ds ↦ add_datapoints (loop_variable d ds) (dims_to_map m.dimensions) (d ∷ ds) rval
]

unfoldable pub add_objects : Dict Object → ByName → ByName
add_objects [] rval = rval
add_objects ((k, o) ∷ l) rval = add_objects l (add_object o rval)

unfoldable pub datapoint_labels_by_name : Dict Object → ByName
datapoint_labels_by_name objects = add_objects objects []

unfoldable pub add_names : Dict String → Dict Bool → Dict Bool
add_names [] names = names
add_names ((k, v) ∷ labels) names = add_names labels (insert k true names)

unfoldable pub name_map : List DatapointLabels → Dict Bool → Dict Bool
name_map [] names = names
name_map (kv ∷ l) names = name_map l (add_names kv.labels names)

unfoldable pub get_label_names : List DatapointLabels → List String
get_label_names l = keys (name_map l [])

-- `prometheus.NewDesc` with its sanitised names.
pub record Desc : Type 0 where
  pub name : List ℕ
  pub variable_labels : List (List ℕ)

-- What the client library gives for a description, a value and the label values; `none` is an error.
abbrev pub NewConstMetric : Type 0 → Type 0
NewConstMetric M = Desc → ℕ → List String → Option M

unfoldable pub label_values : List String → Dict String → List String
label_values [] labels = []
label_values (n ∷ names) labels = lookup_or "" n labels ∷ label_values names labels

unfoldable pub describe : String → List String → Desc
describe name names = record {
  name = sanitize (codes name);
  variable_labels = map (λ n. sanitize (codes n)) names;
}

module _ {M : Type 0} (f : FloatConversions) (new_const_metric : NewConstMetric M) where
  -- The body of the inner loop of `Collect`.
  unfoldable pub publish : Desc → List String → DatapointLabels → List M
  publish desc names kv = elim (coerce_to_float f kv.datapoint.value) [
    | none ↦ []
    | some val ↦ elim (new_const_metric desc val (label_values names kv.labels)) [
      | none ↦ []
      | some metric ↦ metric ∷ []
    ]
  ]

  -- One round of the outer loop.
  unfoldable pub collect_name : String → List DatapointLabels → List M
  collect_name name l =
      let names = get_label_names l in concat_map (publish (describe name names) names) l

  unfoldable pub collect_all : ByName → List M
  collect_all [] = []
  collect_all ((name, l) ∷ rest) = collect_name name l ++ collect_all rest

  -- What is sent to the channel, in order.
  unfoldable pub collect : Dict Object → List M
  collect objects = collect_all (datapoint_labels_by_name objects)
