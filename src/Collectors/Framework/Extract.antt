-- ===== src/Collectors/Framework/Extract.antt =====
-- collectors/framework/record.go: tags and datapoints out of a decoded Avro record.
pub mod Laws
use dcos_metrics.Prelude.{
  ℕ, String, Option, none, some, List, [], ◌∷◌, ◌++◌, ◌==◌, if◌then◌else◌, Dict, length, insert,
  zero, suc, ◌+◌, ◌-◌, ◌≤◌, ◌<◌, ◌≡◌, refl, sym, ap, ◌∙◌, ◌≢◌, ◌⊎◌, inl, inr, Bool, true, false,
  ◌&&◌, ◌||◌, not, arith, eq_iff,
}
use dcos_metrics.Collectors.Agent.{KeyValue, TaskInfo}
use dcos_metrics.Producers.{MetricsMessage, Value, Dimensions, Datapoint}
use dcos_metrics.Collectors.Agent.Tasks.{ContainerTaskRels, get}
use dcos_metrics.Prelude.Int.{ℤ}
use dcos_metrics.Collectors.{is_cosmos}

pub record Field : Type 0 where
  pub name : Value
  pub datum : Value

pub record Record : Type 0 where
  pub name : String
  pub fields : List Field

abbrev pub AvroRecord : Type 0
AvroRecord = List Record

pub data Error : Type 0 where
  no_records : Error
  tag_fields : ℕ → Error
  datapoint_fields : ℕ → Error
  unknown_record : Error
  -- of `transform`
  no_avro_record : Error
  missing_field : String → Error
  bad_object : Error
  bad_datapoints : Error

-- The result of a call that changes the message and may then return an error.
abbrev pub Outcome : Type 0
Outcome = MetricsMessage × Option Error

unfoldable pub convert_label : KeyValue → Dict String → Dict String
convert_label l result = if is_cosmos l.key then result else insert l.key l.value result

unfoldable pub convert_from : List KeyValue → Dict String → Dict String
convert_from [] result = result
convert_from (l ∷ ls) result = convert_from ls (convert_label l result)

unfoldable pub convert_labels : List KeyValue → Dict String
convert_labels ls = convert_from ls []

-- The test of the number of fields, and the fields that are read: a tag's name and value, a
-- datapoint's name and value (its second field is the time, which is not read).
unfoldable pub two_fields : List Field → Option (Field × Field)
two_fields (name ∷ value ∷ []) = some (name, value)
two_fields _ = none

unfoldable pub three_fields : List Field → Option (Field × Field)
three_fields (name ∷ time_ms ∷ value ∷ []) = some (name, value)
three_fields _ = none

module _ (print : Value → String) (ctr : ContainerTaskRels) (now : ℤ) (time : String) where
  -- A tag that names the container: the labels are those of its task from here on.
  unfoldable pub set_container : String → Option TaskInfo → Dimensions → Dimensions
  set_container id none d = record d { container_id = id }
  set_container id (some info) d = record d {
    container_id = id;
    task_id = info.id;
    task_name = info.name;
    labels = convert_labels info.labels;
  }

  unfoldable pub add_tag : String → String → Dimensions → Dimensions
  add_tag tag_name tag_value d =
      if tag_name == "container_id"
      then set_container tag_value (get ctr tag_value) d
      else if tag_name == "framework_id"
      then record d { framework_id = tag_value }
      else if tag_name == "executor_id"
      then record d { executor_id = tag_value }
      else record d { labels = insert tag_name tag_value d.labels }

  unfoldable pub extract_tag : Field → Field → MetricsMessage → MetricsMessage
  extract_tag name value pmm = record pmm {
    dimensions = add_tag (print name.datum) (print value.datum) pmm.dimensions;
    timestamp = now;
  }

  unfoldable pub extract_tags : AvroRecord → MetricsMessage → Outcome
  extract_tags [] pmm = (pmm, none)
  extract_tags (r ∷ ar) pmm = elim (two_fields r.fields) [
    | none ↦ (pmm, some (tag_fields (length r.fields)))
    | some (name, value) ↦ extract_tags ar (extract_tag name value pmm)
  ]

  unfoldable pub extract_datapoint : Field → Field → Datapoint
  extract_datapoint name value = record {
    name = print name.datum;
    value = value.datum;
    unit = "";
    timestamp = time;
    tags = [];
  }

  unfoldable pub extract_datapoints : AvroRecord → List Datapoint → MetricsMessage → Outcome
  extract_datapoints [] datapoints pmm = (record pmm { datapoints = datapoints }, none)
  extract_datapoints (r ∷ ar) datapoints pmm = elim (three_fields r.fields) [
    | none ↦ (pmm, some (datapoint_fields (length r.fields)))
    | some (name, value) ↦
        extract_datapoints ar (datapoints ++ extract_datapoint name value ∷ []) pmm
  ]

  -- The first record's name decides.
  unfoldable pub extract : AvroRecord → MetricsMessage → Outcome
  extract [] pmm = (pmm, some no_records)
  extract (r ∷ ar) pmm =
      if r.name == "dcos.metrics.Tag"
      then extract_tags (r ∷ ar) pmm
      else if r.name == "dcos.metrics.Datapoint"
      then extract_datapoints (r ∷ ar) [] pmm
      else (pmm, some unknown_record)
