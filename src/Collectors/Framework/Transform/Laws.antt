-- ===== src/Collectors/Framework/Transform/Laws.antt =====
-- What `transform` of framework.go promises of a record.
use dcos_metrics.Prelude.{
  String, ◌≡◌, refl, ap, ◌∙◌, inl, inr, Option, none, some, List, [], ◌∷◌, arith, Dict, All,
  insert_all, map, Bool-cases,
}
use dcos_metrics.Collectors.Framework.Extract.{Outcome, Error, extract, AvroRecord}
use dcos_metrics.Producers.{MetricsMessage, Datapoint, Value}
use dcos_metrics.Collectors.Framework.Transform.{
  and_then, require, tag_datapoint, AvroApi, tag_datapoints, transform, transform_record,
  empty_message, patch,
}
use dcos_metrics.Producers.Cache.{receive, write_all}
use dcos_metrics.Prelude.Int.{ℤ}
use dcos_metrics.Producers.Store.{StoreApi}
use dcos_metrics.Collectors.{NodeInfo}
use dcos_metrics.Collectors.Agent.Tasks.{ContainerTaskRels}
use dcos_metrics.Collectors.Framework.Extract.Laws.{
  BeginsWithoutDatapoint, extract-untagged, extract-error, extract-no_datapoints,
}

-- What holds of an outcome that is an error, and of one that is none.
abbrev IsEmpty : Outcome → Type 0
IsEmpty o = (e : Error) → o.1 ≡ some e → MetricsMessage.datapoints o.0 ≡ []

-- The tags of a message that was transformed: the same for every datapoint, and no labels are left.
abbrev pub IsTagged : MetricsMessage → Type 0
IsTagged m =
    (m.dimensions.labels ≡ [])
    × (labels : Dict String) × All (λ (d : Datapoint). d.tags ≡ insert_all [] labels) m.datapoints

abbrev Untagged : MetricsMessage → Type 0
Untagged m = All (λ (d : Datapoint). d.tags ≡ []) m.datapoints

-- Rules for the two ways in which `transform` goes on.
require-IsEmpty :
    {A : Type 0} (pmm : MetricsMessage) (e : Error) (m : Option A) (k : A → Outcome)
    → pmm.datapoints ≡ []
    → ((a : A) → m ≡ some a → IsEmpty (k a))
    → IsEmpty (require pmm e m k)
require-IsEmpty pmm e none k h i x g = h
require-IsEmpty pmm e (some a) k h i x g = i a refl x g

and_then-IsEmpty :
    (o : Outcome) (k : MetricsMessage → Outcome)
    → IsEmpty o
    → (o.1 ≡ none → IsEmpty (k o.0))
    → IsEmpty (and_then o k)
and_then-IsEmpty (pmm, none) k h i = i refl
and_then-IsEmpty (pmm, some e) k h i = h

abbrev Ends : Outcome → Type 0
Ends o = o.1 ≡ none → IsTagged o.0

require-Ends :
    {A : Type 0} (pmm : MetricsMessage) (e : Error) (m : Option A) (k : A → Outcome)
    → ((a : A) → m ≡ some a → Ends (k a))
    → Ends (require pmm e m k)
require-Ends pmm e none k i g = absurd (cc)
require-Ends pmm e (some a) k i g = i a refl g

and_then-Ends :
    (o : Outcome) (k : MetricsMessage → Outcome) → (o.1 ≡ none → Ends (k o.0)) → Ends (and_then o k)
and_then-Ends (pmm, none) k i g = i refl g
and_then-Ends (pmm, some e) k i g = absurd (cc)

All-tag_datapoint :
    (labels : Dict String) (dps : List Datapoint)
    → All (λ (d : Datapoint). d.tags ≡ []) dps
    → All (λ (d : Datapoint). d.tags ≡ insert_all [] labels) (map (tag_datapoint labels) dps)
unfolding tag_datapoint insert_all
All-tag_datapoint labels [] a = tt
All-tag_datapoint labels (d ∷ dps) (h, a) =
    (ap (insert_all (insert_all [] labels)) h, All-tag_datapoint labels dps a)

IsTagged-end : (m : MetricsMessage) → Untagged m → IsTagged (tag_datapoints m)
unfolding tag_datapoints
IsTagged-end m u = (refl, m.dimensions.labels, All-tag_datapoint m.dimensions.labels m.datapoints u)

receive_nothing :
    (store : StoreApi) (m : MetricsMessage) (s : StoreApi.Store store)
    → m.datapoints ≡ []
    → receive store m s ≡ s
unfolding receive write_all
receive_nothing store m s h = rw h refl

module _ (api : AvroApi) (print : Value → String) (now : ℤ) (time : String) where
  open api use {Datum, get, slice, of_slice, create_object}

  transform_record-IsEmpty :
      (datum : Datum) (ctr : ContainerTaskRels) (pmm : MetricsMessage)
      → pmm.datapoints ≡ []
      → ((tags : Datum) (ar : AvroRecord)
          → get datum "tags" ≡ some tags
          → create_object tags ≡ some ar
          → BeginsWithoutDatapoint ar)
      → IsEmpty (transform_record api print now time datum ctr pmm)
  unfolding transform_record
  transform_record-IsEmpty datum ctr pmm h tagged =
      require-IsEmpty pmm _ (get datum "tags") _ h λ tags gt.
        require-IsEmpty pmm _ (create_object tags) _ h λ ar ct.
          and_then-IsEmpty (extract print ctr now time ar pmm) _
            (λ e x. extract-error print ctr now time ar pmm e x ∙ h)
            λ _.
              let pmm₁ = (extract print ctr now time ar pmm).0 in
              let h₁ = extract-no_datapoints print ctr now time ar pmm (tagged tags ar gt ct) ∙ h in
              require-IsEmpty pmm₁ _ (get datum "datapoints") _ h₁ λ dps _.
                require-IsEmpty pmm₁ _ (slice dps) _ h₁ λ decoded _.
                  require-IsEmpty pmm₁ _ (create_object (of_slice (map (patch api) decoded))) _ h₁
                    λ decoded_object _.
                      and_then-IsEmpty (extract print ctr now time decoded_object pmm₁) _
                        (λ e x. extract-error print ctr now time decoded_object pmm₁ e x ∙ h₁)
                        (λ _ e x. absurd (cc))

  transform_record-Ends :
      (datum : Datum) (ctr : ContainerTaskRels) (pmm : MetricsMessage)
      → Untagged pmm
      → Ends (transform_record api print now time datum ctr pmm)
  unfolding transform_record
  transform_record-Ends datum ctr pmm u = require-Ends pmm _ (get datum "tags") _ λ tags _.
      require-Ends pmm _ (create_object tags) _ λ ar _.
        and_then-Ends (extract print ctr now time ar pmm) _ λ _.
          let pmm₁ = (extract print ctr now time ar pmm).0 in
          let u₁ = extract-untagged print ctr now time ar pmm u in
          require-Ends pmm₁ _ (get datum "datapoints") _ λ dps _.
            require-Ends pmm₁ _ (slice dps) _ λ decoded _.
              require-Ends pmm₁ _ (create_object (of_slice (map (patch api) decoded))) _
                λ decoded_object _.
                  and_then-Ends (extract print ctr now time decoded_object pmm₁) _ (λ _ _.
                    IsTagged-end (extract print ctr now time decoded_object pmm₁).0
                      (extract-untagged print ctr now time decoded_object pmm₁ u₁))

  transform-IsEmpty :
      (datum : Datum) (node_info : NodeInfo) (ctr : ContainerTaskRels)
      → ((tags : Datum) (ar : AvroRecord)
          → get datum "tags" ≡ some tags
          → create_object tags ≡ some ar
          → BeginsWithoutDatapoint ar)
      → IsEmpty (transform api print now time datum node_info ctr)
  unfolding transform
  transform-IsEmpty datum node_info ctr tagged = elim (Bool-cases (AvroApi.is_record api datum)) [
    | inl yes_record ↦
        rw yes_record (transform_record-IsEmpty datum ctr (empty_message node_info) refl tagged)
    | inr no_record ↦ rw no_record (λ e x. refl)
  ]

  -- A record that `transform` refuses gives a message without datapoints, which `handleConnection`
  -- sends all the same: the store of a producer that receives it does not change. (The record's tags
  -- must not begin with a datapoint, which the schema rules out.)
  pub receive-transform_error :
      (store : StoreApi) (s : StoreApi.Store store) (datum : Datum) (node_info : NodeInfo)
      (ctr : ContainerTaskRels) (e : Error)
      → ((tags : Datum) (ar : AvroRecord)
          → get datum "tags" ≡ some tags
          → create_object tags ≡ some ar
          → BeginsWithoutDatapoint ar)
      → (transform api print now time datum node_info ctr).1 ≡ some e
      → receive store (transform api print now time datum node_info ctr).0 s ≡ s
  receive-transform_error store s datum node_info ctr e tagged h =
      receive_nothing store (transform api print now time datum node_info ctr).0 s
        (transform-IsEmpty datum node_info ctr tagged e h)

  -- A record that `transform` accepts gives a message with no labels, in which all datapoints have the same tags, a copy of one map of labels.
  pub transform-IsTagged :
      (datum : Datum) (node_info : NodeInfo) (ctr : ContainerTaskRels)
      → (transform api print now time datum node_info ctr).1 ≡ none
      → IsTagged (transform api print now time datum node_info ctr).0
  unfolding transform
  transform-IsTagged datum node_info ctr h = elim (Bool-cases (AvroApi.is_record api datum)) [
    | inl yes_record ↦
        rw yes_record (
          transform_record-Ends datum ctr (empty_message node_info) tt (ground (arith, yes_record)))
    | inr no_record ↦ absurd (ground (arith, no_record))
  ]
