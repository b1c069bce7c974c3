-- ===== src/Plugins/DatadogStandalone/Post.antt =====
-- plugins/datadog-standalone/datadog-standalone.go: the request that posts a series, and its answer.
use dcos_metrics.Prelude.{
  ℕ, String, ◌≡◌, refl, sym, ap, inl, inr, Bool, true, ◌&&◌, not, Option, none, some, List, [], ◌∷◌,
  arith, ◌==◌, eq_iff, if◌then◌else◌, all, Bool-cases, Option-cases,
}
use dcos_metrics.Plugins.Convert.{Conversions}
use dcos_metrics.Plugins.DatadogStandalone.{Encoded, messages_to_series}
use dcos_metrics.Producers.{MetricsMessage, is_nan, is_inf}

-- `DDResult`.
pub record DdResult : Type 0 where
  pub status : String
  pub errors : List String
  pub warnings : List String

-- How a post ends: an error, before or after the request, or the decoded answer.
pub data PostOutcome : Type 0 where
  not_encoded not_posted not_read not_decoded : PostOutcome
  answered : DdResult → PostOutcome

-- What the connector logs at the end.
pub data Report : Type 0 where
  no_messages unexpected : Report
  results : (errors warnings : List String) (transmitted : Bool) → Report

unfoldable pub finite_metric : Encoded → Bool
finite_metric e = not (is_nan e.value) && not (is_inf e.value)

-- `post` is the other side: an answer, whose body can be read or not.
module _ (c : Conversions) (spare : ℕ → ℕ) (unmarshal : String → Option DdResult)
    (post : List Encoded → Option (Option String)) where
  -- What the answer to a request says.
  unfoldable pub read_answer : Option (Option String) → PostOutcome
  read_answer none = not_posted
  read_answer (some none) = not_read
  read_answer (some (some body)) = elim (unmarshal body) [
    | none ↦ not_decoded
    | some result ↦ answered result
  ]

  -- `postMetricsToDatadog`: the series that went over the wire, and the outcome.
  unfoldable pub post_metrics_to_datadog : List MetricsMessage → Option (List Encoded) × PostOutcome
  post_metrics_to_datadog ms =
      let series = messages_to_series c spare ms in
      if all finite_metric series
      then (some series, read_answer (post series))
      else (none, not_encoded)

  unfoldable pub report : PostOutcome → Report
  report (answered result) = results result.errors result.warnings (result.status == "ok")
  report _ = unexpected

  -- `datadogConnector`: what was posted and what is logged; it returns no error in any case.
  unfoldable pub datadog_connector : List MetricsMessage → Option (List Encoded) × Report
  datadog_connector [] = (none, no_messages)
  datadog_connector (m ∷ ms) =
      let (posted, outcome) = post_metrics_to_datadog (m ∷ ms) in (posted, report outcome)

  read_answer-results :
      (answer : Option (Option String)) (errors warnings : List String)
      → report (read_answer answer) ≡ results errors warnings true
      → (body : String) × (answer ≡ some (some body))
        × (result : DdResult) × (unmarshal body ≡ some result)
        × (result.status ≡ "ok")
  unfolding read_answer report
  read_answer-results none errors warnings h = absurd (cc)
  read_answer-results (some none) errors warnings h = absurd (cc)
  read_answer-results (some (some body)) errors warnings h = elim (Option-cases (unmarshal body)) [
    | inl n ↦ absurd (ground (arith, n))
    | inr (result, e) ↦ (body, refl, result, e, ground (arith, e, eq_iff result.status "ok"))
  ]

  -- If the connector logs that the metrics were transmitted, the whole series of the messages was posted, all its values are finite, and the answer decodes to a result with the status ok.
  datadog_connector-transmitted :
      (ms : List MetricsMessage) (posted : Option (List Encoded)) (errors warnings : List String)
      → datadog_connector ms ≡ (posted, results errors warnings true)
      → (posted ≡ some (messages_to_series c spare ms))
        × (all finite_metric (messages_to_series c spare ms) ≡ true)
        × (body : String) × (post (messages_to_series c spare ms) ≡ some (some body))
        × (result : DdResult) × (unmarshal body ≡ some result)
        × (result.status ≡ "ok")
  unfolding datadog_connector post_metrics_to_datadog report
  datadog_connector-transmitted [] posted errors warnings h =
      absurd (let k : no_messages ≡ results errors warnings true = ap (λ t. t.1) h in cc)
  datadog_connector-transmitted (m ∷ ms) posted errors warnings h =
      let series = messages_to_series c spare (m ∷ ms) in
      elim (Bool-cases (all finite_metric series)) [
        | inr bad ↦ absurd (ground (arith, bad))
        | inl fine ↦
            let k : (some series, report (read_answer (post series)))
                ≡ (posted, results errors warnings true) =
              (rw fine at h) in
            let (body, e, result, f, g) =
              read_answer-results (post series) errors warnings (ap (λ t. t.1) k) in
            (sym (ap (λ t. t.0) k), fine, body, e, result, f, g)
      ]
