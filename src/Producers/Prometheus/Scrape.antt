-- ===== src/Producers/Prometheus/Scrape.antt =====
-- A scrape of producers/prometheus/prometheus.go in the states that its writer and its janitor reach.
use dcos_metrics.Prelude.{
  ℕ, String, ◌≡◌, refl, sym, ap, ◌∙◌, inl, inr, some, List, [], ◌∷◌, arith, eq_iff, lookup, Elem,
  Dict, eq_refl, All, keys, length,
}
use dcos_metrics.Producers.Store.{StoreApi, Object, HasUniqueKeys, message, foreign}
use dcos_metrics.Prelude.Int.{ℤ}
use dcos_metrics.Producers.{Datapoint, MetricsMessage}
use dcos_metrics.Producers.Prometheus.Collect.{
  FloatConversions, NewConstMetric, coerce_to_float, describe, label_values, collect,
}
use mathlib.Core.Path.{subst}
use dcos_metrics.Producers.Cache.Interleaving.{State, Reach, IsFiled, start, Reach-IsSound}
use dcos_metrics.Producers.Prometheus.Collect.Laws.{AllSingle, labels_of, collect_complete}

module _ (api : StoreApi) where
  open api use {get, objects, lookup-objects, objects-HasUniqueKeys}

  AllSingle-of_lookup :
      (l : Dict Object)
      → HasUniqueKeys l
      → ((k : String) (o : Object) → lookup k l ≡ some o → IsFiled api k o)
      → AllSingle l
  unfolding lookup
  AllSingle-of_lookup [] u h = tt
  AllSingle-of_lookup ((j, foreign) ∷ l) u h =
      let (m, d, same, one, key) = h j foreign (rw eq_refl refl) in absurd (cc)
  AllSingle-of_lookup ((j, message m) ∷ l) u h =
      let (m', d, same, one, key) = h j (message m) (rw eq_refl refl) in
      let same' : m ≡ m' = cc in
      (
        (d, ap (λ (x : MetricsMessage). x.datapoints) same' ∙ one),
        AllSingle-of_lookup l u.1 (λ k p e. h k p (ground (arith, eq_iff j k))),
      )

  only_one : (d e : Datapoint) (ds : List Datapoint) → Elem d ds → ds ≡ e ∷ [] → ds ≡ d ∷ []
  only_one d e ds h one = elim (subst (Elem d) one h) [
    | inl same ↦ one ∙ ap (λ x. x ∷ []) (sym same)
    | inr none_left ↦ absurd none_left
  ]

  -- In every state that the writer and the janitor reach from the empty store, for a stored datapoint with a numeric value the client library is asked with its sanitised name, with label names that include each of its labels, and with as many values, those of the labels. Unless the library refuses them, what it makes of them is sent.
  pub collect_reachable :
      {M : Type 0} {expiry : ℤ} (f : FloatConversions) (new_const_metric : NewConstMetric M)
      (t : State api) (r : Reach api expiry (start api) t) (k : String) (m : MetricsMessage)
      (d : Datapoint) (val : ℕ)
      → get t.store k ≡ some (message m)
      → Elem d m.datapoints
      → coerce_to_float f d.value ≡ some val
      → (names : List String) × ((metric : M)
          → new_const_metric (describe d.name names) val (label_values names (labels_of m d))
            ≡ some metric
          → Elem metric (collect f new_const_metric (objects t.store)))
        × All (λ n. Elem n names) (keys (labels_of m d))
        × (length (label_values names (labels_of m d)) ≡ length names)
  collect_reachable f new_const_metric t r k m d val g h c =
      let filed = (Reach-IsSound api r).filed in
      let all =
        AllSingle-of_lookup (objects t.store) (objects-HasUniqueKeys t.store)
          (λ j o e. filed j o (sym (lookup-objects t.store j) ∙ e)) in
      let (m', e, same, one, key) = filed k (message m) g in
      let same' : m ≡ m' = cc in
      collect_complete f new_const_metric (objects t.store) k m d val all
        (lookup-objects t.store k ∙ g)
        (only_one d e m.datapoints h (ap (λ (x : MetricsMessage). x.datapoints) same' ∙ one)) c
