-- ===== src/Plugins/Statsd.antt =====
-- plugins/statsd/statsd.go: gauges that go to a StatsD server.
use dcos_metrics.Prelude.{
  ℕ, String, ◌≡◌, refl, sym, ap, ◌∙◌, inl, inr, Option, none, some, List, [], ◌∷◌, ◌==◌,
  if◌then◌else◌, Dict, ◌>>=◌, lookup, insert, ◌<>◌, Option-cases, Bool-cases, lookup-insert,
}
use dcos_metrics.Producers.{
  Value, MetricsMessage, Datapoint, is_nan, int, int32, int64, float32, float64, text,
}
use dcos_metrics.Prelude.Int.{ℤ}

-- `int(v + 0.5)` of a `float64` and of a `float32`, by their bits, `strconv.ParseFloat`, and `%d`.
pub record Rounding : Type 0 where
  pub round64 : ℕ → ℤ
  pub round32 : ℕ → ℤ
  pub parse_float : String → Option ℕ
  pub number : ℤ → String

abbrev pub or_before : Option String → Option String → Option String
or_before (some val) before = some val
or_before none before = before

module _ (r : Rounding) where
  unfoldable pub normalize_float64 : ℕ → Option ℤ
  normalize_float64 v = if is_nan v then none else some (r.round64 v)

  unfoldable pub normalize : Value → Option ℤ
  normalize (int v) = some v
  normalize (int32 v) = some v
  normalize (int64 v) = some v
  normalize (float32 v) = some (r.round32 v)
  normalize (float64 v) = normalize_float64 v
  normalize (text v) = do f ← r.parse_float v; normalize_float64 f
  normalize _ = none

  unfoldable pub convert_datapoint_to_statsd : Datapoint → Option (String × String)
  convert_datapoint_to_statsd dp = do val ← normalize dp.value; some (dp.name, r.number val <> "|g")

  -- The loop of `emitDatapointsOverStatsd` over the batch so far; the batch goes to the client as it is at the end.
  unfoldable pub emit_datapoints : Dict String → List Datapoint → Dict String
  emit_datapoints batch [] = batch
  emit_datapoints batch (dp ∷ dps) = elim (convert_datapoint_to_statsd dp) [
    | none ↦ emit_datapoints batch dps
    | some (name, val) ↦ emit_datapoints (insert name val batch) dps
  ]

  -- `statsdConnector`: one batch for each message.
  unfoldable pub statsd_connector : List MetricsMessage → List (Dict String)
  statsd_connector [] = []
  statsd_connector (m ∷ ms) = emit_datapoints [] m.datapoints ∷ statsd_connector ms

  abbrev pub gauge : Value → Option String
  gauge value = do i ← normalize value; some (r.number i <> "|g")

  -- The last gauge under a name: that of the last datapoint with the name whose value converts.
  abbrev pub last_gauge : String → List Datapoint → Option String
  last_gauge name [] = none
  last_gauge name (dp ∷ dps) =
      or_before (last_gauge name dps) (if dp.name == name then gauge dp.value else none)

  or_before_assoc :
      (a b c : Option String) → or_before a (or_before b c) ≡ or_before (or_before a b) c
  or_before_assoc none b c = refl
  or_before_assoc (some v) b c = refl

  or_before-none : (a : Option String) → or_before a none ≡ a
  or_before-none none = refl
  or_before-none (some v) = refl

  -- One pass of the loop.
  lookup-insert-gauge :
      (name : String) (dp : Datapoint) (i : ℤ) (batch : Dict String)
      → normalize dp.value ≡ some i
      → lookup name (insert dp.name (r.number i <> "|g") batch)
        ≡ or_before (if dp.name == name then gauge dp.value else none) (lookup name batch)
  lookup-insert-gauge name dp i batch e = elim (Bool-cases (dp.name == name)) [
    | inl same ↦ lookup-insert dp.name name (r.number i <> "|g") batch ∙ rw (same, e) refl
    | inr other ↦ lookup-insert dp.name name (r.number i <> "|g") batch ∙ rw other refl
  ]

  no_gauge :
      (name : String) (dp : Datapoint)
      → normalize dp.value ≡ none
      → (if dp.name == name then gauge dp.value else none) ≡ none
  no_gauge name dp e = elim (Bool-cases (dp.name == name)) [
    | inl same ↦ rw (same, e) refl
    | inr other ↦ rw other refl
  ]

  skip_datapoint :
      (dp : Datapoint) (dps : List Datapoint) (batch : Dict String)
      → normalize dp.value ≡ none
      → emit_datapoints batch (dp ∷ dps) ≡ emit_datapoints batch dps
  unfolding emit_datapoints convert_datapoint_to_statsd
  skip_datapoint dp dps batch e = rw (e, emit_datapoints) refl

  take_datapoint :
      (dp : Datapoint) (dps : List Datapoint) (batch : Dict String) (i : ℤ)
      → normalize dp.value ≡ some i
      → emit_datapoints batch (dp ∷ dps)
        ≡ emit_datapoints (insert dp.name (r.number i <> "|g") batch) dps
  unfolding emit_datapoints convert_datapoint_to_statsd
  take_datapoint dp dps batch i e = rw (e, emit_datapoints) refl

  lookup-emit_from :
      (name : String) (dps : List Datapoint) (batch : Dict String)
      → lookup name (emit_datapoints batch dps)
        ≡ or_before (last_gauge name dps) (lookup name batch)
  unfolding emit_datapoints convert_datapoint_to_statsd
  lookup-emit_from name [] batch = refl
  lookup-emit_from name (dp ∷ dps) batch = elim (Option-cases (normalize dp.value)) [
    | inl n ↦
        ap (lookup name) (skip_datapoint dp dps batch n)
        ∙ lookup-emit_from name dps batch
        ∙ ap (λ a. or_before a (lookup name batch))
            (sym (
              ap (or_before (last_gauge name dps)) (no_gauge name dp n)
              ∙ or_before-none (last_gauge name dps)))
    | inr (i, e) ↦
        ap (lookup name) (take_datapoint dp dps batch i e)
        ∙ lookup-emit_from name dps (insert dp.name (r.number i <> "|g") batch)
        ∙ ap (or_before (last_gauge name dps)) (lookup-insert-gauge name dp i batch e)
        ∙ or_before_assoc (last_gauge name dps) (if dp.name == name then gauge dp.value else none)
            (lookup name batch)
  ]

  -- What is under a name in the batch of a message is the gauge of the last of the datapoints with that name whose value converts, whatever their tags are; without one there is nothing under it.
  pub lookup-emit_datapoints :
      (name : String) (dps : List Datapoint)
      → lookup name (emit_datapoints [] dps) ≡ last_gauge name dps
  unfolding lookup
  lookup-emit_datapoints name dps =
      lookup-emit_from name dps [] ∙ or_before-none (last_gauge name dps)
