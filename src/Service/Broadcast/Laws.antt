-- ===== src/Service/Broadcast/Laws.antt =====
-- What the producers of dcos-metrics.go receive and keep.
use dcos_metrics.Prelude.{
  String, ◌≡◌, refl, sym, ap, ◌∙◌, inl, inr, none, List, [], ◌∷◌, ◌++◌, Elem, latest,
}
use dcos_metrics.Service.Broadcast.{
  broadcast, dispatch, Source, Channel, producer_chans, producer_is_configured, before_comma,
}
use dcos_metrics.Producers.{MetricsMessage}
use mathlib.Core.List.{append-nil, append_assoc}
use dcos_metrics.Producers.Store.{StoreApi}
use dcos_metrics.Producers.Cache.{receive_all}
use dcos_metrics.Producers.Cache.History.{writes, get-receive_all}
use mathlib.Core.Path.{subst}

abbrev pub messages : List (Source × MetricsMessage) → List MetricsMessage
messages [] = []
messages ((source, metric) ∷ events) = metric ∷ messages events

Elem-broadcast :
    (msg : MetricsMessage) (l : List Channel) (r : Channel)
    → Elem r (broadcast msg l)
    → (before : Channel) × Elem before l × (r ≡ before ++ msg ∷ [])
unfolding broadcast
Elem-broadcast msg [] r h = absurd h
Elem-broadcast msg (q ∷ l) r (inl e) = (q, inl refl, e)
Elem-broadcast msg (q ∷ l) r (inr h) =
    let (before, i, e) = Elem-broadcast msg l r h in (before, inr i, e)

-- What was in the channel at first, and then every message.
Elem-dispatch :
    (events : List (Source × MetricsMessage)) (l : List Channel) (q : Channel)
    → Elem q (dispatch events l)
    → (before : Channel) × Elem before l × (q ≡ before ++ messages events)
unfolding dispatch
Elem-dispatch [] l q h = (q, h, sym (append-nil q))
Elem-dispatch ((source, metric) ∷ events) l q h =
    let (before, i, e) = Elem-dispatch events (broadcast metric l) q h in
    let (first, j, f) = Elem-broadcast metric l before i in
    (
      first,
      j,
      e ∙ ap (λ r. r ++ messages events) f ∙ append_assoc first (metric ∷ []) (messages events),
    )

-- Both producers are always started, whatever the configuration.
producer_chans-eq : producer_chans ≡ [] ∷ [] ∷ []
unfolding producer_chans producer_is_configured before_comma
producer_chans-eq = refl

Elem-producer_chans : (before : Channel) → Elem before producer_chans → before ≡ []
Elem-producer_chans before i =
    elim (let j : Elem before ([] ∷ [] ∷ []) = subst (Elem before) producer_chans-eq i in j) [
      | inl e ↦ e
      | inr rest ↦ elim rest [ inl e ↦ e | inr none_left ↦ absurd none_left ]
    ]

module _ (api : StoreApi) where
  open api use {get, new, get-new}

  -- Whatever the collectors send, and in whatever order the service takes it: after it, the store of each producer that was started holds under each key the last single-datapoint message that any collector's message writes under it. (The janitors aside.)
  pub get-dispatch :
      (events : List (Source × MetricsMessage)) (q : Channel) (k : String)
      → Elem q (dispatch events producer_chans)
      → get (receive_all api q new) k ≡ latest k (writes (messages events)) none
  get-dispatch events q k h =
      let (before, i, e) = Elem-dispatch events producer_chans q h in
      ap (λ x. get (receive_all api x new) k)
        (e ∙ ap (λ x. x ++ messages events) (Elem-producer_chans before i))
      ∙ get-receive_all api k (messages events) new
      ∙ ap (latest k (writes (messages events))) (get-new k)
