-- ===== src/Plugins/EndToEnd.antt =====
-- The client of plugins/plugin.go and the handlers of producers/http/handlers.go together: what a plugin gets of what the HTTP producer stores.
use text.Mathlib.TextLemmas.{append-nil as text_append-nil}
use mathlib.Core.Path.{subst}
use dcos_metrics.Prelude.{
  String, ◌≡◌, refl, sym, ap, ◌∙◌, inl, inr, Bool, true, false, some, List, [], ◌∷◌, arith,
  if◌then◌else◌, Elem, map, Option-cases, Bool-cases, eqb,
}
use dcos_metrics.Producers.Http.{
  Write, encode, combined, json, encodable, ids, ping, no_message, error, containers_handler,
  container_handler,
}
use dcos_metrics.Producers.{Value, Datapoint, MetricsMessage, container_metric_prefix}
use dcos_metrics.Plugins.Metrics.{
  make_metrics_request, Api, container_url, Reply, request_all, garbled, urls, decoded, no_content,
  get_container_list, Role, is_master, wanted, metrics, node_url, metrics-eq,
}
use dcos_metrics.Prelude.Int.{pos, ℤ}
use dcos_metrics.Producers.Store.{StoreApi, message}
use dcos_metrics.Producers.Cache.Interleaving.{State, Reach, start}
use dcos_metrics.Producers.Http.Ids.{containers_handler_complete}
use dcos_metrics.Producers.Http.Endpoints.{container_handler_prefix}

-- A datapoint after encoding/json has written and read it: `wire` is what becomes of its value.
abbrev pub sent_datapoint : (Value → Value) → Datapoint → Datapoint
sent_datapoint wire d = record d { value = wire d.value }

-- A message after it: the name and the timestamp are not part of its JSON (producers/interface.go).
unfoldable pub sent_message : (Value → Value) → MetricsMessage → MetricsMessage
sent_message wire m = record m {
  name = "";
  datapoints = map (sent_datapoint wire) m.datapoints;
  timestamp = pos 0;
}

-- What a client takes from what a handler wrote. The status is that of the first write, and the decoder reads the first value of the body.
unfoldable pub reply_of : (Value → Value) → List Write → Reply MetricsMessage
reply_of wire [] = garbled
reply_of wire (json (combined m) ∷ writes) = decoded (sent_message wire m)
reply_of wire (json (ids l) ∷ writes) = garbled
reply_of wire (json (ping ok timestamp) ∷ writes) = decoded no_message
reply_of wire (error status text ∷ writes) = if eqb status 204 then no_content else garbled

unfoldable pub ids_reply : List Write → Reply (List String)
ids_reply [] = garbled
ids_reply (json (combined m) ∷ writes) = garbled
ids_reply (json (ids l) ∷ writes) = decoded l
ids_reply (json (ping ok timestamp) ∷ writes) = garbled
ids_reply (error status text ∷ writes) = if eqb status 204 then no_content else garbled

Elem-sent :
    (wire : Value → Value) (d : Datapoint) (l : List Datapoint)
    → Elem d l
    → Elem (sent_datapoint wire d) (map (sent_datapoint wire) l)
Elem-sent wire d [] h = absurd h
Elem-sent wire d (x ∷ l) (inl e) = inl (ap (sent_datapoint wire) e)
Elem-sent wire d (x ∷ l) (inr h) = inr (Elem-sent wire d l h)

unwrap_message : {a b : MetricsMessage} → some a ≡ some b → a ≡ b
unwrap_message h = ground (arith, h)

unwrap_list : {a b : List MetricsMessage} → some a ≡ some b → a ≡ b
unwrap_list h = ground (arith, h)

-- Each answer of a poll that succeeds is among its messages.
request_all-Elem :
    (http : Api) (us : List String) (ms : List MetricsMessage) (u : String)
    → request_all http us ≡ some ms
    → Elem u us
    → (m : MetricsMessage) × (make_metrics_request http u ≡ some m) × Elem m ms
request_all-Elem http [] ms u h i = absurd i
request_all-Elem http (v ∷ us) ms u h i = elim (Option-cases (make_metrics_request http v)) [
  | inl n ↦ absurd (ground (arith, n))
  | inr (m, e) ↦ elim (Option-cases (request_all http us)) [
    | inl n ↦ absurd (ground (arith, e, n))
    | inr (rest, f) ↦
        let whole : some (m ∷ rest) ≡ some ms = (rw (e, f) at h) in
        elim i [
          | inl same ↦ (m, rw same e, subst (Elem m) (unwrap_list whole) (inl refl))
          | inr later ↦
              let (n, g, j) = request_all-Elem http us rest u f later in
              (n, g, subst (Elem n) (unwrap_list whole) (inr j))
        ]
  ]
]

reply_of-encode :
    (wire : Value → Value) (c : MetricsMessage)
    → reply_of wire (encode (combined c))
      ≡ (if encodable (combined c) then decoded (sent_message wire c) else garbled)
unfolding reply_of encode
reply_of-encode wire c = elim (Bool-cases (encodable (combined c))) [
  | inl fits ↦ rw fits refl
  | inr bad ↦ rw bad refl
]

of_reply :
    (wire : Value → Value) (c m : MetricsMessage) (http : Api) (url : String) (b : Bool)
    → http.message url ≡ (if b then decoded (sent_message wire c) else garbled)
    → make_metrics_request http url ≡ some m
    → m ≡ sent_message wire c
unfolding make_metrics_request
of_reply wire c m http url true e h = unwrap_message (sym h ∙ rw (e, make_metrics_request) refl)
of_reply wire c m http url false e h = absurd (ground (arith, e))

-- A request that succeeds where a message was encoded gives that message.
decoded_encode :
    (wire : Value → Value) (c m : MetricsMessage) (http : Api) (url : String)
    → http.message url ≡ reply_of wire (encode (combined c))
    → make_metrics_request http url ≡ some m
    → m ≡ sent_message wire c
decoded_encode wire c m http url e h =
    of_reply wire c m http url (encodable (combined c)) (e ∙ reply_of-encode wire c) h

Elem-urls : (id : String) (l : List String) → Elem id l → Elem (container_url id) (urls l)
Elem-urls id [] h = absurd h
Elem-urls id (x ∷ l) (inl e) = inl (ap container_url e)
Elem-urls id (x ∷ l) (inr h) = inr (inr (Elem-urls id l h))

module _ (api : StoreApi) {expiry : ℤ} (t : State api) (r : Reach api expiry (start api) t) where
  open api use {get}

  listed :
      (k : String) (m : MetricsMessage) (http : Api) (role : Role)
      → get t.store k ≡ some (message m)
      → m.name ≡ container_metric_prefix
      → http.containers ≡ ids_reply (containers_handler api t.store)
      → is_master role ≡ false
      → (us : List String) × (wanted http role ≡ some us)
        × Elem (container_url m.dimensions.container_id) us
  unfolding ids_reply get_container_list
  listed k m http role g n e low =
      let (answered, a, i) = containers_handler_complete api t r k m g (inl n) in
      (
        node_url ∷ urls answered,
        rw low (rw e (rw a refl)),
        inr (Elem-urls m.dimensions.container_id answered i),
      )

  -- In every state of the store that the writer and the janitor reach: where the list of containers and a container's endpoint answer from that state, a poll of a plugin that is no master's either fails or has, in one of its messages, each datapoint that is stored for that container, with its name, unit, time and tags, and its value as JSON carries it.
  pub metrics-stored :
      (wire : Value → Value) (http : Api) (role : Role) (k : String) (m : MetricsMessage)
      (d : Datapoint) (ms : List MetricsMessage)
      → is_master role ≡ false
      → http.containers ≡ ids_reply (containers_handler api t.store)
      → http.message (container_url m.dimensions.container_id)
        ≡ reply_of wire (container_handler api m.dimensions.container_id t.store)
      → get t.store k ≡ some (message m)
      → m.name ≡ container_metric_prefix
      → Elem d m.datapoints
      → metrics http role ≡ some ms
      → (c : MetricsMessage) × Elem c ms × Elem (sent_datapoint wire d) c.datapoints
  unfolding sent_message
  metrics-stored wire http role k m d ms low listing answer g n h polled =
      let id = m.dimensions.container_id in
      let (us, w, i) = listed k m http role g n listing low in
      let (c, made, has) =
        container_handler_prefix api t r id "" k m d g n (sym (text_append-nil id)) h in
      let (x, got, j) =
        request_all-Elem http us ms (container_url id) (sym (metrics-eq http role us w) ∙ polled)
          i in
      let same =
        decoded_encode wire c x http (container_url id) (answer ∙ ap (reply_of wire) made) got in
      (
        x,
        j,
        subst (λ y. Elem (sent_datapoint wire d) y.datapoints) (sym same)
            (Elem-sent wire d c.datapoints has),
      )
