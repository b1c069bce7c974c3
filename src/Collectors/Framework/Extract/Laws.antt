-- ===== src/Collectors/Framework/Extract/Laws.antt =====
-- What `extract` and `convertLabels` of record.go do to a message.
use dcos_metrics.Prelude.{
  String, ◌≡◌, refl, sym, ap, ◌∙◌, inl, inr, false, none, some, List, [], ◌∷◌, ◌++◌, arith, ◌==◌,
  eq_iff, if◌then◌else◌, Dict, lookup, latest, Option-cases, lookup-insert, length, All, All-append,
  Bool-cases,
}
use dcos_metrics.Collectors.Framework.Extract.{
  convert_labels, convert_from, extract_tags, extract_datapoints, AvroRecord, extract_tag, Error,
  Record, add_tag, convert_label, three_fields, set_container, two_fields, Field, Outcome,
  extract_datapoint, datapoint_fields, tag_fields, extract,
}
use dcos_metrics.Producers.{Value, MetricsMessage, Datapoint}
use dcos_metrics.Collectors.Agent.{KeyValue, TaskInfo}
use dcos_metrics.Collectors.Agent.Tasks.{ContainerTaskRels, get}
use dcos_metrics.Prelude.Int.{ℤ}
use dcos_metrics.Collectors.{is_cosmos}

-- The pairs of a list of labels, in order.
abbrev pub pairs : List KeyValue → Dict String
pairs [] = []
pairs (l ∷ ls) = (l.key, l.value) ∷ pairs ls

convert_from-lookup :
    (ls : List KeyValue) (result : Dict String) (k : String)
    → lookup k (convert_from ls result)
      ≡ (if is_cosmos k then lookup k result else latest k (pairs ls) (lookup k result))
unfolding convert_from
convert_from-lookup [] result k = ground arith
convert_from-lookup (l ∷ ls) result k =
    convert_from-lookup ls (convert_label l result) k
    ∙ unfold convert_label in ground (arith, eq_iff l.key k, lookup-insert l.key k l.value result)

-- A label of the task is converted unless Cosmos set it; of two values of a key the last one stays.
pub convert_labels-lookup :
    (ls : List KeyValue) (k : String)
    → lookup k (convert_labels ls) ≡ (if is_cosmos k then none else latest k (pairs ls) none)
unfolding convert_labels
convert_labels-lookup ls k = convert_from-lookup ls [] k ∙ (unfold lookup in refl)

abbrev pub BeginsWithoutDatapoint : AvroRecord → Type 0
BeginsWithoutDatapoint [] = Unit
BeginsWithoutDatapoint (r ∷ ar) = (r.name == "dcos.metrics.Datapoint") ≡ false

module _ (print : Value → String) (ctr : ContainerTaskRels) (now : ℤ) (time : String) where
  extract_tags-bad :
      (r : Record) (ar : AvroRecord) (pmm : MetricsMessage)
      → two_fields r.fields ≡ none
      → extract_tags print ctr now time (r ∷ ar) pmm ≡ (pmm, some (tag_fields (length r.fields)))
  unfolding extract_tags
  extract_tags-bad r ar pmm h = rw (h, extract_tags) refl

  pub extract_tags-step :
      (r : Record) (ar : AvroRecord) (pmm : MetricsMessage) (name value : Field)
      → two_fields r.fields ≡ some (name, value)
      → extract_tags print ctr now time (r ∷ ar) pmm
        ≡ extract_tags print ctr now time ar (extract_tag print ctr now time name value pmm)
  unfolding extract_tags
  extract_tags-step r ar pmm name value h = rw (h, extract_tags) refl

  pub extract_tags-datapoints :
      (ar : AvroRecord) (pmm : MetricsMessage)
      → MetricsMessage.datapoints (extract_tags print ctr now time ar pmm).0 ≡ pmm.datapoints
  extract_tags-datapoints [] pmm = unfold extract_tags in refl
  extract_tags-datapoints (r ∷ ar) pmm = elim (Option-cases (two_fields r.fields)) [
    | inl n ↦ rw (extract_tags-bad r ar pmm n) refl
    | inr ((name, value), e) ↦ rw (extract_tags-step r ar pmm name value e) (
        extract_tags-datapoints ar (extract_tag print ctr now time name value pmm)
        ∙ unfold extract_tag in refl)
  ]

  extract_datapoints-bad :
      (r : Record) (ar : AvroRecord) (dps : List Datapoint) (pmm : MetricsMessage)
      → three_fields r.fields ≡ none
      → extract_datapoints print ctr now time (r ∷ ar) dps pmm
        ≡ (pmm, some (datapoint_fields (length r.fields)))
  unfolding extract_datapoints
  extract_datapoints-bad r ar dps pmm h = rw (h, extract_datapoints) refl

  extract_datapoints-step :
      (r : Record) (ar : AvroRecord) (dps : List Datapoint) (pmm : MetricsMessage)
      (name value : Field)
      → three_fields r.fields ≡ some (name, value)
      → extract_datapoints print ctr now time (r ∷ ar) dps pmm
        ≡ extract_datapoints print ctr now time ar
            (dps ++ extract_datapoint print ctr now time name value ∷ [])
            pmm
  unfolding extract_datapoints
  extract_datapoints-step r ar dps pmm name value h = rw (h, extract_datapoints) refl

  -- A record of datapoints that fails leaves the message as it was.
  pub extract_datapoints-error :
      (ar : AvroRecord) (dps : List Datapoint) (pmm : MetricsMessage) (e : Error)
      → (extract_datapoints print ctr now time ar dps pmm).1 ≡ some e
      → (extract_datapoints print ctr now time ar dps pmm).0 ≡ pmm
  extract_datapoints-error [] dps pmm e h = absurd (unfold extract_datapoints in cc)
  extract_datapoints-error (r ∷ ar) dps pmm e h = elim (Option-cases (three_fields r.fields)) [
    | inl n ↦ rw (extract_datapoints-bad r ar dps pmm n) refl
    | inr ((name, value), f) ↦
        let step = extract_datapoints-step r ar dps pmm name value f in
        rw step (extract_datapoints-error ar _ pmm e (ap (λ (o : Outcome). o.1) (sym step) ∙ h))
  ]

  -- No extracted datapoint has tags of its own.
  extract_datapoints-untagged :
      (ar : AvroRecord) (dps : List Datapoint) (pmm : MetricsMessage)
      → All (λ (d : Datapoint). d.tags ≡ []) dps
      → All (λ (d : Datapoint). d.tags ≡ []) pmm.datapoints
      → All
          (λ (d : Datapoint). d.tags ≡ [])
          (MetricsMessage.datapoints (extract_datapoints print ctr now time ar dps pmm).0)
  extract_datapoints-untagged [] dps pmm a b = unfold extract_datapoints in a
  extract_datapoints-untagged (r ∷ ar) dps pmm a b = elim (Option-cases (three_fields r.fields)) [
    | inl n ↦ rw (extract_datapoints-bad r ar dps pmm n) b
    | inr ((name, value), f) ↦ rw (extract_datapoints-step r ar dps pmm name value f) (
        extract_datapoints-untagged ar _ pmm
          (All-append _ dps (extract_datapoint print ctr now time name value ∷ []) a
            (unfold extract_datapoint in (refl, tt)))
          b)
  ]

  pub extract-untagged :
      (ar : AvroRecord) (pmm : MetricsMessage)
      → All (λ (d : Datapoint). d.tags ≡ []) pmm.datapoints
      → All
          (λ (d : Datapoint). d.tags ≡ [])
          (MetricsMessage.datapoints (extract print ctr now time ar pmm).0)
  unfolding extract
  extract-untagged [] pmm a = a
  extract-untagged (r ∷ ar) pmm a = elim (Bool-cases (r.name == "dcos.metrics.Tag")) [
    | inl h ↦ rw h (rw (extract_tags-datapoints (r ∷ ar) pmm) a)
    | inr h ↦ rw h (elim (Bool-cases (r.name == "dcos.metrics.Datapoint")) [
      | inl k ↦ rw k (extract_datapoints-untagged (r ∷ ar) [] pmm tt a)
      | inr k ↦ rw k a
    ])
  ]

  -- An extraction that fails leaves the datapoints as they were.
  pub extract-error :
      (ar : AvroRecord) (pmm : MetricsMessage) (e : Error)
      → (extract print ctr now time ar pmm).1 ≡ some e
      → MetricsMessage.datapoints (extract print ctr now time ar pmm).0 ≡ pmm.datapoints
  unfolding extract
  extract-error [] pmm e h = refl
  extract-error (r ∷ ar) pmm e h = elim (Bool-cases (r.name == "dcos.metrics.Tag")) [
    | inl t ↦ rw t (extract_tags-datapoints (r ∷ ar) pmm)
    | inr t ↦ elim (Bool-cases (r.name == "dcos.metrics.Datapoint")) [
      | inl k ↦ rw t (
          rw k (
            ap (λ (m : MetricsMessage). m.datapoints)
              (extract_datapoints-error (r ∷ ar) [] pmm e (ground (arith, t, k)))))
      | inr k ↦ rw t (rw k refl)
    ]
  ]

  -- A record that does not begin with a datapoint leaves the datapoints as they were.
  pub extract-no_datapoints :
      (ar : AvroRecord) (pmm : MetricsMessage)
      → BeginsWithoutDatapoint ar
      → MetricsMessage.datapoints (extract print ctr now time ar pmm).0 ≡ pmm.datapoints
  unfolding extract
  extract-no_datapoints [] pmm b = refl
  extract-no_datapoints (r ∷ ar) pmm b = elim (Bool-cases (r.name == "dcos.metrics.Tag")) [
    | inl t ↦ rw t (extract_tags-datapoints (r ∷ ar) pmm)
    | inr t ↦ rw t (rw b refl)
  ]

-- An ordinary tag, which becomes a label.
abbrev pub IsOrdinary : String → Type 0
IsOrdinary name =
    ((name == "container_id") ≡ false)
    × ((name == "framework_id") ≡ false)
    × ((name == "executor_id") ≡ false)

ordinary_then_container :
    (print : Value → String) (ctr : ContainerTaskRels) (now : ℤ) (time : String)
    (pmm : MetricsMessage) (n v name value : Field) (info : TaskInfo)
    → IsOrdinary (print n.datum)
    → print name.datum ≡ "container_id"
    → get ctr (print value.datum) ≡ some info
    → extract_tag print ctr now time name value (extract_tag print ctr now time n v pmm)
      ≡ extract_tag print ctr now time name value pmm
unfolding extract_tag add_tag set_container
ordinary_then_container print ctr now time pmm n v name value info o h g =
    rw o.0 (rw o.1 (rw o.2 (rw h (rw g refl))))

-- A tag of another name than container_id, framework_id and executor_id that stands directly before the tag of a container with a known task is lost: without it the record gives the same message.
pub tag_before_container_id_lost :
    (print : Value → String) (ctr : ContainerTaskRels) (now : ℤ) (time : String) (r c : Record)
    (ar : AvroRecord) (pmm : MetricsMessage) (n v name value : Field) (info : TaskInfo)
    → two_fields r.fields ≡ some (n, v)
    → IsOrdinary (print n.datum)
    → two_fields c.fields ≡ some (name, value)
    → print name.datum ≡ "container_id"
    → get ctr (print value.datum) ≡ some info
    → extract_tags print ctr now time (r ∷ c ∷ ar) pmm
      ≡ extract_tags print ctr now time (c ∷ ar) pmm
tag_before_container_id_lost print ctr now time r c ar pmm n v name value info er o ec h g =
    extract_tags-step print ctr now time r (c ∷ ar) pmm n v er
    ∙ extract_tags-step print ctr now time c ar _ name value ec
    ∙ ap (extract_tags print ctr now time ar)
        (ordinary_then_container print ctr now time pmm n v name value info o h g)
    ∙ sym (extract_tags-step print ctr now time c ar pmm name value ec)
