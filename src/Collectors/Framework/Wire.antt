-- ===== src/Collectors/Framework/Wire.antt =====
-- What a sender puts on the wire, by schema/metrics.avsc, and what `transform` of framework.go makes of it.
use dcos_metrics.Collectors.Framework.Transform.{
  transform, transform_record, AvroApi, require, and_then, tag_datapoints, empty_message, patch,
}
use dcos_metrics.Prelude.{
  String, ◌≡◌, refl, sym, ap, ◌∙◌, true, none, some, List, [], ◌∷◌, ◌++◌, map,
}
use dcos_metrics.Collectors.Framework.Extract.{
  Record, Field, extract_tag, extract_datapoints, extract_tags, three_fields, two_fields, add_tag,
  extract_datapoint, extract, no_records, missing_field, bad_datapoints, bad_object,
}
use dcos_metrics.Producers.{Value, text, Datapoint, Dimensions, MetricsMessage}
use dcos_metrics.Collectors.Agent.Tasks.{ContainerTaskRels}
use dcos_metrics.Prelude.Int.{ℤ}
use mathlib.Core.List.{append-nil, append_assoc}
use dcos_metrics.Collectors.{NodeInfo}

-- `MetricList` with its `Tag`s and `Datapoint`s.
pub record WireDatapoint : Type 0 where
  pub name : String
  pub time_ms : Value
  pub value : Value

pub record MetricList : Type 0 where
  pub topic : String
  pub tags : List (String × String)
  pub datapoints : List WireDatapoint

abbrev pub field_of : String → Value → Field
field_of name v = record { name = text name; datum = v }

-- The records as `createObjectFromRecord` reads them back, their fields in the order of the schema.
abbrev pub tag_row : String × String → Record
tag_row tag = record {
  name = "dcos.metrics.Tag";
  fields = field_of "key" (text tag.0) ∷ field_of "value" (text tag.1) ∷ [];
}

abbrev pub datapoint_row : WireDatapoint → Record
datapoint_row d = record {
  name = "dcos.metrics.Datapoint";
  fields =
      field_of "name" (text d.name) ∷ field_of "time_ms" d.time_ms ∷ field_of "value" d.value ∷ [];
}

module _ (api : AvroApi) where
  open api use {Datum, is_record, slice, of_slice, get, create_object}

  -- The documented way of a list through goavro and JSON: what the reader gets is the list that was sent. (A value that is NaN is put to a text first, and is not such a list.)
  pub record Carries (datum : Datum) (m : MetricList) : Type 0 where
    pub a_record : is_record datum ≡ true
    pub tags : Datum
    pub has_tags : get datum "tags" ≡ some tags
    pub tag_rows : create_object tags ≡ some (map tag_row m.tags)
    pub datapoints : Datum
    pub has_datapoints : get datum "datapoints" ≡ some datapoints
    pub decoded : List Datum
    pub sliced : slice datapoints ≡ some decoded
    pub datapoint_rows :
        create_object (of_slice (map (patch api) decoded)) ≡ some (map datapoint_row m.datapoints)

module _ (print : Value → String) (print-text : (s : String) → print (text s) ≡ s)
    (ctr : ContainerTaskRels) (now : ℤ) (time : String) where
  -- The tags of a list, added one after the other.
  abbrev pub add_tags : List (String × String) → Dimensions → Dimensions
  add_tags [] d = d
  add_tags ((k, v) ∷ tags) d = add_tags tags (add_tag print ctr now time k v d)

  abbrev pub received : WireDatapoint → Datapoint
  received d = record { name = d.name; value = d.value; unit = ""; timestamp = time; tags = [] }

  extract_tag-row :
      (k v : String) (pmm : MetricsMessage)
      → extract_tag print ctr now time (field_of "key" (text k)) (field_of "value" (text v)) pmm
        ≡ record pmm { dimensions = add_tag print ctr now time k v pmm.dimensions; timestamp = now }
  unfolding extract_tag
  extract_tag-row k v pmm = rw (print-text k, print-text v) refl

  extract_tags-rows :
      (t : String × String) (tags : List (String × String)) (pmm : MetricsMessage)
      → extract_tags print ctr now time (map tag_row (t ∷ tags)) pmm
        ≡ (record pmm { dimensions = add_tags (t ∷ tags) pmm.dimensions; timestamp = now }, none)
  unfolding extract_tags two_fields
  extract_tags-rows (k, v) [] pmm = ap (λ m. (m, none)) (extract_tag-row k v pmm)
  extract_tags-rows (k, v) (u ∷ tags) pmm =
      ap (extract_tags print ctr now time (map tag_row (u ∷ tags))) (extract_tag-row k v pmm)
      ∙ extract_tags-rows u tags (record pmm {
        dimensions = add_tag print ctr now time k v pmm.dimensions;
        timestamp = now;
      })

  extract_datapoints-rows :
      (l : List WireDatapoint) (before : List Datapoint) (pmm : MetricsMessage)
      → extract_datapoints print ctr now time (map datapoint_row l) before pmm
        ≡ (record pmm { datapoints = before ++ map received l }, none)
  unfolding extract_datapoints three_fields extract_datapoint
  extract_datapoints-rows [] before pmm =
      ap (λ x. (record pmm { datapoints = x }, none)) (sym (append-nil before))
  extract_datapoints-rows (d ∷ l) before pmm =
      let named : extract_datapoint print ctr now time (field_of "name" (text d.name))
            (field_of "value" d.value)
          ≡ received d =
        ap (λ n. record { name = n; value = d.value; unit = ""; timestamp = time; tags = [] })
          (print-text d.name) in
      ap (λ x. extract_datapoints print ctr now time (map datapoint_row l) (before ++ x ∷ []) pmm)
        named
      ∙ extract_datapoints-rows l (before ++ received d ∷ []) pmm
      ∙ ap (λ x. (record pmm { datapoints = x }, none))
          (append_assoc before (received d ∷ []) (map received l))

  extract-tags :
      (t : String × String) (tags : List (String × String)) (pmm : MetricsMessage)
      → extract print ctr now time (map tag_row (t ∷ tags)) pmm
        ≡ (record pmm { dimensions = add_tags (t ∷ tags) pmm.dimensions; timestamp = now }, none)
  unfolding extract
  extract-tags t tags pmm = extract_tags-rows t tags pmm

  extract-datapoints :
      (d : WireDatapoint) (l : List WireDatapoint) (pmm : MetricsMessage)
      → extract print ctr now time (map datapoint_row (d ∷ l)) pmm
        ≡ (record pmm { datapoints = map received (d ∷ l) }, none)
  unfolding extract
  extract-datapoints d l pmm = extract_datapoints-rows (d ∷ l) [] pmm

  -- The message after a list's tags.
  abbrev pub tagged : NodeInfo → MetricList → MetricsMessage
  tagged node_info m = record (empty_message node_info) {
    dimensions = add_tags m.tags (empty_message node_info).dimensions;
    timestamp = now;
  }

  -- The message that a list is worth.
  abbrev pub message_for : NodeInfo → MetricList → MetricsMessage
  message_for node_info m =
      tag_datapoints (record (tagged node_info m) { datapoints = map received m.datapoints })

  module _ (api : AvroApi) (datum : AvroApi.Datum api) (node_info : NodeInfo) where
    after_tags :
        (m : MetricList) (t : String × String) (tags : List (String × String))
        → Carries api datum m
        → m.tags ≡ t ∷ tags
        → transform api print now time datum node_info ctr
          ≡ require
              (tagged node_info m)
              (missing_field "datapoints")
              (AvroApi.get api datum "datapoints")
              (λ dps.
                require (tagged node_info m) bad_datapoints (AvroApi.slice api dps) (λ decoded.
                  require
                    (tagged node_info m)
                    bad_object
                    (AvroApi.create_object api (AvroApi.of_slice api (map (patch api) decoded)))
                    (λ rows.
                      and_then
                        (extract print ctr now time rows (tagged node_info m))
                        (λ pmm. (tag_datapoints pmm, none)))))
    unfolding transform transform_record
    after_tags m t tags c e =
        let rows : AvroApi.create_object api c.tags ≡ some (map tag_row (t ∷ tags)) =
          c.tag_rows ∙ ap (λ x. some (map tag_row x)) e in
        let taken : extract print ctr now time (map tag_row (t ∷ tags)) (empty_message node_info)
            ≡ (tagged node_info m, none) =
          extract-tags t tags (empty_message node_info)
          ∙ ap
              (λ x. (
                record (empty_message node_info) {
                  dimensions = add_tags x (empty_message node_info).dimensions;
                  timestamp = now;
                },
                none,
              ))
              (sym e) in
        rw (c.a_record, c.has_tags, rows, taken) refl

    -- A list with a tag and a datapoint arrives: `transform` gives no error, and a message with a datapoint for each of the list's, by name and value and in order, whose dimensions and tags are what the list's tags, one after the other, make of those of the node.
    pub transform-Carries :
        (m : MetricList) (t : String × String) (tags : List (String × String)) (d : WireDatapoint)
        (l : List WireDatapoint)
        → Carries api datum m
        → m.tags ≡ t ∷ tags
        → m.datapoints ≡ d ∷ l
        → transform api print now time datum node_info ctr ≡ (message_for node_info m, none)
    transform-Carries m t tags d l c e f =
        let rows = c.datapoint_rows ∙ ap (λ x. some (map datapoint_row x)) f in
        let taken = extract-datapoints d l (tagged node_info m) in
        after_tags m t tags c e
        ∙ rw (c.has_datapoints, c.sliced, rows, taken)
            (ap
              (λ x. (
                tag_datapoints (record (tagged node_info m) { datapoints = map received x }),
                none,
              ))
              (sym f))

    -- A list without tags is refused, and its datapoints are lost with it.
    pub transform-no_tags :
        (m : MetricList)
        → Carries api datum m
        → m.tags ≡ []
        → transform api print now time datum node_info ctr
          ≡ (empty_message node_info, some no_records)
    unfolding transform transform_record extract
    transform-no_tags m c e =
        let rows : AvroApi.create_object api c.tags ≡ some [] =
          c.tag_rows ∙ ap (λ x. some (map tag_row x)) e in
        rw (c.a_record, c.has_tags, rows) refl
