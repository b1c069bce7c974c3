-- ===== src/Producers/Http/Ids.antt =====
-- The list of containers that `containersHandler` of producers/http/handlers.go answers.
use dcos_metrics.Prelude.{
  String, ◌≡◌, refl, sym, ◌⊎◌, inl, inr, Bool, true, some, List, [], ◌∷◌, arith, ◌==◌, join, lookup,
  Dict, Elem, keys, Bool-cases, insert, lookup-insert, Elem-keys, eq_refl, ◌<>◌,
}
use dcos_metrics.Producers.Store.{matches, StoreApi, Object, message, foreign}
use dcos_metrics.Producers.Http.{
  unique_ids, containers_handler, answer_ids, encode, encodable, json, ids,
}
use dcos_metrics.Producers.{
  join_metric_name, MetricsMessage, Datapoint, container_metric_prefix, app_metric_prefix,
}
use dcos_metrics.Prelude.Int.{ℤ}
use dcos_metrics.Producers.Cache.Interleaving.{State, Reach, start, Reach-IsSound}
use dcos_metrics.Producers.Cache.Janitor.{AllMessages, AllMessages-of_lookup}
use mathlib.Core.Path.{subst}
use dcos_metrics.Producers.Cache.{qualified_name, message_prefix}
use dcos_metrics.Producers.Http.Endpoints.{message_prefix-container, message_prefix-app, clean}
use dcos_metrics.Producers.Http.Lookups.{matches-qualified_name}

unique_ids_total :
    (seen : Dict Bool) (l : Dict Object)
    → AllMessages l
    → (ids : List String) × (unique_ids seen l ≡ some ids)
unfolding unique_ids
unique_ids_total seen [] a = (keys seen, refl)
unique_ids_total seen ((k, foreign) ∷ l) a = absurd (a.0 refl)
unique_ids_total seen ((k, message m) ∷ l) a =
    unique_ids_total (insert m.dimensions.container_id true seen) l a.1

-- An id that was seen is in the answer.
unique_ids-keeps :
    (seen : Dict Bool) (l : Dict Object) (answered : List String) (id : String)
    → unique_ids seen l ≡ some answered
    → lookup id seen ≡ some true
    → Elem id answered
unfolding unique_ids
unique_ids-keeps seen [] answered id e h =
    let same : keys seen ≡ answered = ground arith in
    subst (Elem id) same (Elem-keys id seen true h)
unique_ids-keeps seen ((k, foreign) ∷ l) answered id e h = cc
unique_ids-keeps seen ((k, message m) ∷ l) answered id e h =
    unique_ids-keeps (insert m.dimensions.container_id true seen) l answered id e
      (ground (arith, lookup-insert m.dimensions.container_id id true seen))

unique_ids-found :
    (seen : Dict Bool) (l : Dict Object) (answered : List String) (k : String) (m : MetricsMessage)
    → unique_ids seen l ≡ some answered
    → lookup k l ≡ some (message m)
    → Elem m.dimensions.container_id answered
unfolding unique_ids lookup
unique_ids-found seen [] answered k m e h = cc
unique_ids-found seen ((j, foreign) ∷ l) answered k m e h = cc
unique_ids-found seen ((j, message o) ∷ l) answered k m e h = elim (Bool-cases (j == k)) [
  | inl same ↦
      let o≡m : o ≡ m = ground (arith, same) in
      let id = m.dimensions.container_id in
      unique_ids-keeps (insert o.dimensions.container_id true seen) l answered id e (
        subst
          (λ (x : MetricsMessage).
            lookup id (insert x.dimensions.container_id true seen) ≡ some true)
          (sym o≡m) (ground (arith, lookup-insert id id true seen, eq_refl id)))
  | inr other ↦
      unique_ids-found (insert o.dimensions.container_id true seen) l answered k m e
        (ground (arith, other))
]

matches_either :
    (p q k : String)
    → (matches (p ∷ []) k ≡ true) ⊎ (matches (q ∷ []) k ≡ true)
    → matches (p ∷ q ∷ []) k ≡ true
unfolding matches
matches_either p q k (inl h) = ground arith
matches_either p q k (inr h) = ground arith

container_key :
    (m : MetricsMessage) (d : Datapoint)
    → (m.name ≡ container_metric_prefix) ⊎ (m.name ≡ app_metric_prefix)
    → matches
        (container_metric_prefix ∷ app_metric_prefix ∷ [])
        (qualified_name (message_prefix m) d)
      ≡ true
unfolding join_metric_name join
container_key m d (inl n) = matches_either container_metric_prefix app_metric_prefix _ (
    inl (
      rw (message_prefix-container m m.dimensions.container_id n refl)
        (matches-qualified_name container_metric_prefix ("." <> m.dimensions.container_id) d)))
container_key m d (inr n) = matches_either container_metric_prefix app_metric_prefix _ (
    inr (
      rw (message_prefix-app m m.dimensions.container_id n refl)
        (matches-qualified_name app_metric_prefix ("." <> m.dimensions.container_id) d)))

module _ (api : StoreApi) {expiry : ℤ} (t : State api) (r : Reach api expiry (start api) t) where
  open api use {get, get_by_regex, lookup-get_by_regex, get_by_regex-HasUniqueKeys}

  -- In every reachable state the list of containers is answered, and has the id of each container for which a message of the container or of its application is stored.
  pub containers_handler_complete :
      (k : String) (m : MetricsMessage)
      → get t.store k ≡ some (message m)
      → (m.name ≡ container_metric_prefix) ⊎ (m.name ≡ app_metric_prefix)
      → (answered : List String) × (containers_handler api t.store ≡ json (ids answered) ∷ [])
        × Elem m.dimensions.container_id answered
  unfolding containers_handler answer_ids encode encodable
  containers_handler_complete k m g n =
      let both = container_metric_prefix ∷ app_metric_prefix ∷ [] in
      let found = get_by_regex t.store both in
      let all =
        AllMessages-of_lookup found (get_by_regex-HasUniqueKeys t.store both)
          (λ j e. clean api t r j (ground (arith, lookup-get_by_regex t.store both j))) in
      let (answered, e) = unique_ids_total [] found all in
      let (m', d, same, one, key) = (Reach-IsSound api r).filed k (message m) g in
      let same' : m ≡ m' = cc in
      let hit : matches both k ≡ true = rw key (rw (← same') (container_key m d n)) in
      (
        answered,
        rw e refl,
        unique_ids-found [] found answered k m e
            (ground (arith, lookup-get_by_regex t.store both k, hit)),
      )
