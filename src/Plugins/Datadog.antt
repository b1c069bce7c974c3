-- ===== src/Plugins/Datadog.antt =====
-- plugins/datadog/datadog.go: gauges that go to a Datadog agent.
use dcos_metrics.Prelude.{
  ℕ, suc, String, ◌≡◌, refl, sym, ap, ◌∙◌, inl, inr, Bool, true, false, Option, none, some, List,
  [], ◌∷◌, ◌++◌, arith, ◌==◌, if◌then◌else◌, Dict, ◌>>=◌, ◌<>◌, Option-cases,
}
use dcos_metrics.Producers.{Value, Dimensions, MetricsMessage, Datapoint, float64}
use mathlib.Core.List.{append-nil}

-- `buildTags`: the fields that are not empty in their order, and the labels last, all as "key:value".
unfoldable pub field_tags : Dict String → List String
field_tags [] = []
field_tags ((k, v) ∷ fields) =
    let rest = field_tags fields in if v == "" then rest else (k <> ":" <> v) ∷ rest

unfoldable pub label_pairs : Dict String → List String
label_pairs [] = []
label_pairs ((k, v) ∷ labels) = (k <> ":" <> v) ∷ label_pairs labels

abbrev pub dimension_fields : Dimensions → Dict String
dimension_fields d =
    ("mesos_id", d.mesos_id)
    ∷ ("cluster_id", d.cluster_id)
    ∷ ("container_id", d.container_id)
    ∷ ("executor_id", d.executor_id)
    ∷ ("framework_name", d.framework_name)
    ∷ ("framework_id", d.framework_id)
    ∷ ("framework_role", d.framework_role)
    ∷ ("framework_principal", d.framework_principal)
    ∷ ("task_name", d.task_name)
    ∷ ("task_id", d.task_id)
    ∷ ("hostname", d.hostname)
    ∷ []

unfoldable pub build_tags : Dimensions → List String
build_tags d = field_tags (dimension_fields d) ++ label_pairs d.labels

pub record Gauge : Type 0 where
  pub name : String
  pub value : ℕ
  pub tags : List String

-- `dp.Value.(float64)`.
abbrev pub as_float64 : Value → Option ℕ
as_float64 (float64 bits) = some bits
as_float64 _ = none

-- `accepts` is the client: whether it takes the gauge without an error.
module _ (accepts : Gauge → Bool) where
  -- The loop of `toStats`: the gauges that were handed to the client, and whether it ends without an error.
  unfoldable pub send_gauges : String → List String → List Datapoint → List Gauge × Bool
  send_gauges name tags [] = ([], true)
  send_gauges name tags (dp ∷ dps) =
      let rest = send_gauges name tags dps in
      elim (as_float64 dp.value) [
        | none ↦ ([], false)
        | some val ↦
            let g : Gauge = record { name = name <> "." <> dp.name; value = val; tags = tags } in
            if accepts g then (g ∷ rest.0, rest.1) else (g ∷ [], false)
      ]

  unfoldable pub to_stats : MetricsMessage → List Gauge × Bool
  to_stats m = send_gauges m.name (build_tags m.dimensions) m.datapoints

  -- `datadogConnector`: an error of one message is logged. `connected` tells if the client for a message can be made.
  unfoldable pub datadog_connector : (ℕ → Bool) → ℕ → List MetricsMessage → List Gauge
  datadog_connector connected i [] = []
  datadog_connector connected i (m ∷ ms) =
      let rest = datadog_connector connected (suc i) ms in
      if connected i then (to_stats m).0 ++ rest else rest

-- The gauge that a datapoint with a `float64` becomes.
abbrev pub gauge_of : MetricsMessage → Datapoint → ℕ → Gauge
gauge_of m dp val = record {
  name = m.name <> "." <> dp.name;
  value = val;
  tags = build_tags m.dimensions;
}

-- Every datapoint as a gauge, or nothing if one of them is no `float64`.
abbrev pub all_gauges : MetricsMessage → List Datapoint → Option (List Gauge)
all_gauges m [] = some []
all_gauges m (dp ∷ dps) = do
  gs ← all_gauges m dps
  val ← as_float64 dp.value
  some (gauge_of m dp val ∷ gs)

unwrap : {a b : List Gauge} → some a ≡ some b → a ≡ b
unwrap h = ground (arith, h)

module _ (accepts : Gauge → Bool) (m : MetricsMessage) where
  abbrev sent : List Datapoint → List Gauge × Bool
  sent dps = send_gauges accepts m.name (build_tags m.dimensions) dps

  sent-cons :
      (dp : Datapoint) (dps : List Datapoint) (val : ℕ)
      → as_float64 dp.value ≡ some val
      → accepts (gauge_of m dp val) ≡ true
      → sent (dp ∷ dps) ≡ (gauge_of m dp val ∷ (sent dps).0, (sent dps).1)
  unfolding send_gauges
  sent-cons dp dps val e good = rw (e, good, send_gauges) refl

  sent-front :
      (front back : List Datapoint) (gs : List Gauge)
      → ((g : Gauge) → accepts g ≡ true)
      → all_gauges m front ≡ some gs
      → sent (front ++ back) ≡ (gs ++ (sent back).0, (sent back).1)
  sent-front [] back gs good h = ground (arith, h)
  sent-front (dp ∷ front) back gs good h = elim (Option-cases (all_gauges m front)) [
    | inl n ↦ absurd (ground (arith, n))
    | inr (rest, e) ↦ elim (Option-cases (as_float64 dp.value)) [
      | inl n ↦ absurd (ground (arith, e, n))
      | inr (val, f) ↦
          let k : some (gauge_of m dp val ∷ rest) ≡ some gs = (rw (e, f) at h) in
          sent-cons dp (front ++ back) val f (good (gauge_of m dp val))
          ∙ ap (λ t. (gauge_of m dp val ∷ t.0, t.1)) (sent-front front back rest good e)
          ∙ ap (λ l. (l ++ (sent back).0, (sent back).1)) (unwrap k)
    ]
  ]

  sent-bad :
      (bad : Datapoint) (back : List Datapoint)
      → as_float64 bad.value ≡ none
      → sent (bad ∷ back) ≡ ([], false)
  unfolding send_gauges
  sent-bad bad back n = rw (n, send_gauges) refl

  -- For a client that takes every gauge: the first datapoint whose value is no `float64` ends a message with an error, and what was sent is the gauges of the datapoints before it. Those after it are lost, whatever they are.
  pub to_stats-stops :
      (front back : List Datapoint) (bad : Datapoint) (gs : List Gauge)
      → ((g : Gauge) → accepts g ≡ true)
      → all_gauges m front ≡ some gs
      → as_float64 bad.value ≡ none
      → to_stats accepts (record m { datapoints = front ++ bad ∷ back }) ≡ (gs, false)
  unfolding to_stats
  to_stats-stops front back bad gs good h n =
      sent-front front (bad ∷ back) gs good h
      ∙ ap (λ t. (gs ++ t.0, t.1)) (sent-bad bad back n)
      ∙ ap (λ l. (l, false)) (append-nil gs)

  -- For a client that takes every gauge, a message whose values are all `float64` is sent whole: one gauge for each datapoint, in order, all with the tags of the message's dimensions.
  pub to_stats-all :
      (gs : List Gauge)
      → ((g : Gauge) → accepts g ≡ true)
      → all_gauges m m.datapoints ≡ some gs
      → to_stats accepts m ≡ (gs, true)
  unfolding to_stats send_gauges
  to_stats-all gs good h =
      rw (sym (append-nil m.datapoints))
        (sent-front m.datapoints [] gs good h ∙ ap (λ l. (l, true)) (append-nil gs))
