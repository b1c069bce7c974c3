-- ===== src/Plugins/DatadogStandalone/Hosts.antt =====
-- Whose hostname the metrics of plugins/datadog-standalone/datadog-standalone.go carry.
use dcos_metrics.Prelude.{
  ℕ, String, ◌≡◌, refl, ap, ◌∙◌, inl, inr, List, [], ◌∷◌, ◌++◌, concat_map, Elem, map,
  Elem-append_cases, length,
}
use dcos_metrics.Plugins.DatadogStandalone.{
  encode_metric, Metric, messages_to_series, message_series, Encoded, last_host, message_tags,
  metrics_of,
}
use dcos_metrics.Plugins.Convert.{Conversions}
use dcos_metrics.Producers.{MetricsMessage}

Elem-encode_metric :
    (tags cells : List String) (host : String) (ms : List Metric) (x : Encoded)
    → Elem x (map (encode_metric tags cells host) ms)
    → x.host ≡ host
unfolding encode_metric
Elem-encode_metric tags cells host [] x h = absurd h
Elem-encode_metric tags cells host (m ∷ ms) x (inl e) = ap (λ (y : Encoded). y.host) e
Elem-encode_metric tags cells host (m ∷ ms) x (inr h) = Elem-encode_metric tags cells host ms x h

module _ (c : Conversions) (spare : ℕ → ℕ) where
  message_series-host :
      (host : String) (m : MetricsMessage) (x : Encoded)
      → Elem x (message_series c spare host m)
      → x.host ≡ host
  unfolding message_series
  message_series-host host m x h =
      let tags = message_tags m.dimensions in
      let r = metrics_of c (spare (length tags)) tags m.datapoints [] in
      Elem-encode_metric tags r.1 host r.0 x h

  series_host :
      (host : String) (ms : List MetricsMessage) (x : Encoded)
      → Elem x (concat_map (message_series c spare host) ms)
      → x.host ≡ host
  unfolding concat_map
  series_host host [] x h = absurd h
  series_host host (m ∷ ms) x h =
      elim (Elem-append_cases x (message_series c spare host m)
        (concat_map (message_series c spare host) ms) h) [
          | inl i ↦ message_series-host host m x i
          | inr i ↦ series_host host ms x i
        ]

  -- Of messages that end in a given one, every metric of the series has that last message's hostname, whichever message it is of.
  pub messages_to_series-host :
      (ms : List MetricsMessage) (last : MetricsMessage) (x : Encoded)
      → Elem x (messages_to_series c spare (ms ++ last ∷ []))
      → x.host ≡ last.dimensions.hostname
  unfolding messages_to_series last_host
  messages_to_series-host ms last x h =
      series_host (last_host c spare "" (ms ++ last ∷ [])) (ms ++ last ∷ []) x h
      ∙ last_host-append "" ms
    where
      last_host-append :
          (host : String) (ms : List MetricsMessage)
          → last_host c spare host (ms ++ last ∷ []) ≡ last.dimensions.hostname
      last_host-append host [] = refl
      last_host-append host (m ∷ ms) = last_host-append m.dimensions.hostname ms
