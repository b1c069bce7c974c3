-- ===== src/Plugins/Metrics.antt =====
-- `Metrics` of plugins/plugin.go: what a plugin asks of the HTTP producer, and what it makes of the
-- answers.
use dcos_metrics.Prelude.{
  ◌+◌, String, ◌≡◌, refl, sym, ap, ◌∙◌, inl, inr, Bool, true, false, Option, none, some, List, [],
  ◌∷◌, ◌++◌, arith, if◌then◌else◌, ◌<>◌, ◌>>=◌, Option-cases, length, Bool-cases, ◌*◌,
}
use dcos_metrics.Producers.{MetricsMessage}
use dcos_metrics.Producers.Http.{no_message}
use mathlib.Core.List.{append-nil, append_assoc}

-- What one GET gives: an error of the client, 204, or a body, which is decoded or not.
pub data Reply (A : Type 0) : Type 0 where
  refused : Reply A
  no_content : Reply A
  garbled : Reply A
  decoded : A → Reply A

pub data Role : Type 0 where
  master agent agent_public : Role

-- The other side: what each URL of a message answers, and the list of containers.
pub record Api : Type 0 where
  pub message : String → Reply MetricsMessage
  pub containers : Reply (List String)

-- `makeMetricsRequest`; `none` is an error.
unfoldable pub make_metrics_request : Api → String → Option MetricsMessage
make_metrics_request api url = elim (api.message url) [
  | refused ↦ none
  | no_content ↦ some no_message
  | garbled ↦ none
  | decoded m ↦ some m
]

abbrev pub container_url : String → String
container_url id = "http://localhost/v0/containers/" <> id

abbrev pub app_url : String → String
app_url id = container_url id <> "/app"

abbrev pub node_url : String
node_url = "http://localhost/v0/node"

-- `getContainerList` reads the body whatever the status; the handler never answers 204.
unfoldable pub get_container_list : Api → Option (List String)
get_container_list api = elim api.containers [
  | refused ↦ none
  | no_content ↦ none
  | garbled ↦ none
  | decoded ids ↦ some ids
]

-- The loop of `getContainerMetrics`, with the messages so far.
unfoldable pub container_metrics_from :
    Api → List String → List MetricsMessage → Option (List MetricsMessage)
container_metrics_from api [] messages = some messages
container_metrics_from api (id ∷ ids) messages = do
  container_metrics ← make_metrics_request api (container_url id)
  container_app_metrics ← make_metrics_request api (app_url id)
  container_metrics_from api ids (messages ++ (container_metrics ∷ container_app_metrics ∷ []))

unfoldable pub get_container_metrics : Api → Option (List MetricsMessage)
get_container_metrics api = do ids ← get_container_list api; container_metrics_from api ids []

unfoldable pub is_master : Role → Bool
is_master master = true
is_master _ = false

unfoldable pub metrics : Api → Role → Option (List MetricsMessage)
metrics api role = do
  node_metrics ← make_metrics_request api node_url
  if is_master role
      then some (node_metrics ∷ [])
      else do container_metrics ← get_container_metrics api; some (node_metrics ∷ container_metrics)

-- The requests for the containers, in order.
abbrev pub urls : List String → List String
urls [] = []
urls (id ∷ ids) = container_url id ∷ app_url id ∷ urls ids

-- All requests of a list, or an error if one of them fails.
abbrev pub request_all : Api → List String → Option (List MetricsMessage)
request_all api [] = some []
request_all api (u ∷ us) = do m ← make_metrics_request api u; ms ← request_all api us; some (m ∷ ms)

regroup :
    (front : List MetricsMessage) (m a : MetricsMessage) (o : Option (List MetricsMessage))
    → (o >>= λ ms. some ((front ++ (m ∷ a ∷ [])) ++ ms))
      ≡ (((o >>= λ ms. some (a ∷ ms)) >>= λ ms. some (m ∷ ms)) >>= λ ms. some (front ++ ms))
regroup front m a none = refl
regroup front m a (some ms) = ap some (append_assoc front (m ∷ a ∷ []) ms)

container_metrics_from-eq :
    (api : Api) (ids : List String) (front : List MetricsMessage)
    → container_metrics_from api ids front
      ≡ (request_all api (urls ids) >>= λ ms. some (front ++ ms))
unfolding container_metrics_from
container_metrics_from-eq api [] front = ap some (sym (append-nil front))
container_metrics_from-eq api (id ∷ ids) front =
    elim (Option-cases (make_metrics_request api (container_url id))) [
      | inl n ↦ rw n refl
      | inr (m, e) ↦ elim (Option-cases (make_metrics_request api (app_url id))) [
        | inl n ↦ rw e (rw n refl)
        | inr (a, f) ↦ rw e (
            rw f (
              container_metrics_from-eq api ids (front ++ (m ∷ a ∷ []))
              ∙ regroup front m a (request_all api (urls ids))))
      ]
    ]

-- What a poll has to ask for: the node, and for an agent the two endpoints of each container that the
-- list names, in its order.
abbrev pub wanted : Api → Role → Option (List String)
wanted api role =
    if is_master role
    then some (node_url ∷ [])
    else get_container_list api >>= λ ids. some (node_url ∷ urls ids)

end_of_chain :
    (o : Option (List MetricsMessage)) (n : MetricsMessage)
    → ((o >>= λ ms. some ([] ++ ms)) >>= λ ms. some (n ∷ ms)) ≡ (o >>= λ ms. some (n ∷ ms))
end_of_chain none n = refl
end_of_chain (some ms) n = refl

node_only :
    (o : Option MetricsMessage)
    → (o >>= λ n. some (n ∷ [])) ≡ (o >>= λ n. some [] >>= λ ms. some (n ∷ ms))
node_only none = refl
node_only (some n) = refl

after_node :
    (o : Option MetricsMessage) (r : Option (List MetricsMessage))
    → (o >>= λ n. (r >>= λ ms. some ([] ++ ms)) >>= λ ms. some (n ∷ ms))
      ≡ (o >>= λ n. r >>= λ ms. some (n ∷ ms))
after_node none r = refl
after_node (some n) r = end_of_chain r n

length-urls : (ids : List String) → length (urls ids) ≡ 2 * length ids
length-urls [] = refl
length-urls (id ∷ ids) = omega (arith, length-urls ids)

length-request_all :
    (api : Api) (us : List String) (ms : List MetricsMessage)
    → request_all api us ≡ some ms
    → length ms ≡ length us
length-request_all api [] ms e = ground arith
length-request_all api (u ∷ us) ms e = elim (Option-cases (make_metrics_request api u)) [
  | inl n ↦ absurd (ground (arith, n))
  | inr (m, f) ↦ elim (Option-cases (request_all api us)) [
    | inl n ↦ absurd (ground (arith, f, n))
    | inr (r, g) ↦ ground (arith, f, g, length-request_all api us r g)
  ]
]

-- Where the list of containers is answered, which a master does not ask for, a poll gives the answers to all that it has to ask for, in order, and is an error if one of these requests fails.
pub metrics-eq :
    (api : Api) (role : Role) (us : List String)
    → wanted api role ≡ some us
    → metrics api role ≡ request_all api us
unfolding metrics get_container_metrics
metrics-eq api role us h = elim (Bool-cases (is_master role)) [
  | inl top ↦
      let e : node_url ∷ [] ≡ us = ground (arith, top) in
      rw (← e) (rw top (node_only (make_metrics_request api node_url)))
  | inr low ↦ elim (Option-cases (get_container_list api)) [
    | inl n ↦ absurd (ground (arith, low, n))
    | inr (ids, g) ↦
        let e : node_url ∷ urls ids ≡ us = ground (arith, low, g) in
        rw (← e) (
          rw low (
            rw g (
              rw (container_metrics_from-eq api ids [])
                (after_node (make_metrics_request api node_url) (request_all api (urls ids))))))
  ]
]

-- An agent's poll that succeeds has the node's message and two for each container.
pub length-metrics :
    (api : Api) (role : Role) (ids : List String) (ms : List MetricsMessage)
    → is_master role ≡ false
    → get_container_list api ≡ some ids
    → metrics api role ≡ some ms
    → length ms ≡ 1 + 2 * length ids
length-metrics api role ids ms low g e =
    let same = metrics-eq api role (node_url ∷ urls ids) (rw low (rw g refl)) in
    omega (arith, length-request_all api (node_url ∷ urls ids) ms (sym same ∙ e), length-urls ids)
