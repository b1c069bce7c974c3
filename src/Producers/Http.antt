-- ===== src/Producers/Http.antt =====
-- producers/http/handlers.go, routes.go and router.go: what the endpoints answer from the store.
pub mod Combine
pub mod Endpoints
pub mod Ids
pub mod Lookups
pub mod Router
pub mod Serving
use dcos_metrics.Prelude.{
  ℕ, zero, suc, ◌+◌, ◌-◌, ◌≤◌, ◌<◌, String, ◌≡◌, refl, sym, ap, ◌∙◌, ◌≢◌, ◌⊎◌, inl, inr, Bool, true,
  false, ◌&&◌, ◌||◌, not, Option, none, some, List, [], ◌∷◌, ◌++◌, arith, ◌==◌, eq_iff,
  if◌then◌else◌,
}
use dcos_metrics.Producers.Store.{foreign}
use dcos_metrics.Prelude.{
  ℕ, zero, suc, ◌+◌, ◌-◌, ◌≤◌, ◌<◌, String, ◌≡◌, refl, sym, ap, ◌∙◌, ◌≢◌, ◌⊎◌, inl, inr, Bool, true,
  false, ◌&&◌, ◌||◌, not, Option, none, some, List, [], ◌∷◌, ◌++◌, arith, ◌==◌, eq_iff,
  if◌then◌else◌, Dict, all, keys, insert, ltb, ◌%◌, ◌^◌,
}
use dcos_metrics.Producers.Store.{StoreApi, Object, message}
use dcos_metrics.Producers.{
  MetricsMessage, Value, Datapoint, node_metric_prefix, join_metric_name, no_dimensions,
  container_metric_prefix, app_metric_prefix, float64, is_nan, is_inf, float32,
}
use dcos_metrics.Prelude.Int.{pos}

-- What a handler does to its `http.ResponseWriter`, in order. The status that a client sees is
-- that of the first write; the body has all of them.
pub data Body : Type 0 where
  combined : MetricsMessage → Body
  ids : List String → Body
  ping : (ok : Bool) (timestamp : String) → Body

pub data Write : Type 0 where
  error : ℕ → String → Write
  json : Body → Write

-- Go's JSON encoder refuses floats that are no finite number. (What a `composite` value holds is not
-- modelled; it counts as fit.)
unfoldable pub fits_json : Value → Bool
fits_json (float64 bits) = not (is_nan bits) && not (is_inf bits)
fits_json (float32 bits) = ltb (bits % 2 ^ 31) 0x7F800000
fits_json _ = true

unfoldable pub encodable : Body → Bool
unfolding fits_json
encodable (combined m) = all (λ (d : Datapoint). fits_json d.value) m.datapoints
encodable (ids l) = true
encodable (ping ok timestamp) = true

unfoldable pub encode : Body → List Write
encode v = if encodable v then json v ∷ [] else error 500 "Failed to encode value to JSON" ∷ []

-- The loop of `combineMessages`: the message so far, and whether an object of another type stopped it.
unfoldable pub combine_from : MetricsMessage → Dict Object → MetricsMessage × Bool
combine_from acc [] = (acc, false)
combine_from acc ((k, foreign) ∷ l) = (acc, true)
combine_from acc ((k, message m) ∷ l) =
    combine_from
      (record acc { datapoints = acc.datapoints ++ m.datapoints; dimensions = m.dimensions }) l

abbrev pub no_message : MetricsMessage
no_message = record { name = ""; datapoints = []; dimensions = no_dimensions; timestamp = pos 0 }

unfoldable pub combine_messages : Dict Object → MetricsMessage × Bool
unfolding combine_from
combine_messages mm = combine_from no_message mm

-- The end of each handler: an error is written, and the encoding follows all the same.
unfoldable pub combine_and_encode : Dict Object → List Write
unfolding combine_messages encode
combine_and_encode mm =
    let (m, failed) = combine_messages mm in
    (if failed then error 500 "Unsupported message type" ∷ [] else []) ++ encode (combined m)

-- `if len(mm) == 0 { http.Error(w, text, 204); return }`, then the rest.
unfoldable pub answer : String → Dict Object → List Write
unfolding combine_and_encode
answer text [] = error 204 text ∷ []
answer text (p ∷ mm) = combine_and_encode (p ∷ mm)

-- The loop of `containersHandler` over what matched; `none` is an object of another type.
unfoldable pub unique_ids : Dict Bool → Dict Object → Option (List String)
unique_ids seen [] = some (keys seen)
unique_ids seen ((k, foreign) ∷ l) = none
unique_ids seen ((k, message m) ∷ l) = unique_ids (insert m.dimensions.container_id true seen) l

unfoldable pub answer_ids : Option (List String) → List Write
answer_ids none = error 500 "Got unsupported message type." ∷ []
answer_ids (some l) = encode (ids l)

module _ (api : StoreApi) where
  open api use {Store, objects, get_by_regex}

  unfoldable pub node_handler : Store → List Write
  node_handler s = answer "No values found in store" (get_by_regex s (node_metric_prefix ∷ []))

  -- An empty store is reported, and the handler goes on.
  unfoldable pub debug_handler : Store → List Write
  debug_handler s = elim (objects s) [
    | [] ↦ error 204 "No values found in store" ∷ combine_and_encode []
    | p ∷ mm ↦ combine_and_encode (p ∷ mm)
  ]

  unfoldable pub containers_handler : Store → List Write
  containers_handler s =
      answer_ids (unique_ids [] (get_by_regex s (container_metric_prefix ∷ app_metric_prefix ∷ [])))

  unfoldable pub container_handler : String → Store → List Write
  container_handler id s =
      answer "Key not found in store"
        (get_by_regex s (join_metric_name (container_metric_prefix ∷ id ∷ []) ∷ []))

  unfoldable pub container_app_handler : String → Store → List Write
  container_app_handler id s =
      answer "Key not found in store"
        (get_by_regex s (join_metric_name (app_metric_prefix ∷ id ∷ []) ∷ []))

  unfoldable pub container_app_metric_handler : String → String → Store → List Write
  container_app_metric_handler id metric_id s =
      answer "Key not found in store"
        (get_by_regex s (join_metric_name (app_metric_prefix ∷ id ∷ metric_id ∷ []) ∷ []))

unfoldable pub ping_handler : String → List Write
unfolding encode
ping_handler now = encode (ping true now)

-- routes.go and router.go: a route by its name, method and path.
pub record Route : Type 0 where
  pub name : String
  pub method : String
  pub path : List String

abbrev pub route : String → List String → Route
route name path = record { name = name; method = "GET"; path = path }

abbrev pub routes : List Route
routes =
    route "ping" ("/v0" ∷ "ping" ∷ [])
    ∷ route "node" ("/v0" ∷ "node" ∷ [])
    ∷ route "debug" ("/v0" ∷ "debug" ∷ [])
    ∷ []

abbrev pub agent_routes : List Route
agent_routes =
    route "containers" ("/v0" ∷ "containers" ∷ [])
    ∷ route "container" ("/v0" ∷ "containers" ∷ "{id}" ∷ [])
    ∷ route "containers_app" ("/v0" ∷ "containers" ∷ "{id}" ∷ "app" ∷ [])
    ∷ route "containers_app_metric" ("/v0" ∷ "containers" ∷ "{id}" ∷ "app" ∷ "{metric-id}" ∷ [])
    ∷ []

unfoldable pub new_router : String → List Route
new_router dcos_role = if dcos_role == "agent" then agent_routes ++ routes else routes
