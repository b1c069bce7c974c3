-- ===== src/Tests/Prometheus.antt =====
-- Examples of producers/prometheus/prometheus.go.
use dcos_metrics.Prelude.{
  ℕ, String, ◌≡◌, refl, true, false, none, some, List, [], ◌∷◌, Elem, All, keys, inl, if◌then◌else◌,
  eqb, length,
}
use dcos_metrics.Producers.Prometheus.Collect.{
  NewConstMetric, Desc, coerce_to_float, FloatConversions, describe, label_values, collect,
}
use dcos_metrics.Producers.Prometheus.Sanitize.{
  sanitize, is_word, is_legal, codes, sanitize-is_legal,
}
use dcos_metrics.Producers.{MetricsMessage}
use dcos_metrics.Producers.Prometheus.Collect.Laws.{labels_of}
use dcos_metrics.Tests.Values.{web, cpu, web_key, mem}
use dcos_metrics.Producers.Store.Lists.{normal, list_store}
use dcos_metrics.Tests.Cache.{after_web, after_web_reached, found_after_web}
use dcos_metrics.Producers.Prometheus.Scrape.{collect_reachable}

abbrev conversions : FloatConversions
conversions = record { of_int = λ i. 0; of_uint = λ n. n; of_float32 = λ b. b }

-- A client library that refuses values that are not as many as the names.
abbrev Published : Type 0
Published = Desc × ℕ × List String

abbrev library : NewConstMetric Published
library desc value values =
    if eqb (length desc.variable_labels) (length values) then some (desc, value, values) else none

cpu_coerced : coerce_to_float conversions cpu.value ≡ some 0x3FF0000000000000
unfolding coerce_to_float
cpu_coerced = refl

abbrev both : MetricsMessage
both = record web { datapoints = cpu ∷ mem ∷ [] }

sanitize-is_legal_example : is_legal (sanitize (codes "9.cpu")) ≡ true
sanitize-is_legal_example = sanitize-is_legal (codes "9.cpu")

no_word : is_word b'.' ≡ false
unfolding is_word
no_word = refl

no_word_either : is_word b'-' ≡ false
unfolding is_word
no_word_either = refl

collect_reachable_example :
    (names : List String) × ((metric : Published)
      → library (describe "cpu" names) 0x3FF0000000000000 (label_values names (labels_of web cpu))
        ≡ some metric
      → Elem metric (collect conversions library (normal after_web.store)))
    × All (λ n. Elem n names) (keys (labels_of web cpu))
    × (length (label_values names (labels_of web cpu)) ≡ length names)
collect_reachable_example =
    collect_reachable list_store conversions library after_web after_web_reached web_key web cpu
      0x3FF0000000000000 found_after_web (inl refl) cpu_coerced
