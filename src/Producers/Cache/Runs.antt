-- ===== src/Producers/Cache/Runs.antt =====
-- producers/http/http.go: a whole message as steps of the interleaving, and the loop of the janitor at any time of it.
use dcos_metrics.Producers.Cache.Interleaving.{
  start, write, written, State, Reach, next, Reach-IsSound, AllFiled,
}
use dcos_metrics.Prelude.{
  ℕ, suc, String, ◌≡◌, refl, sym, ap, ◌∙◌, inl, inr, Option, none, some, List, [], ◌∷◌, arith, ◌==◌,
  if◌then◌else◌, lookup, Dict, Elem, latest, Bool-cases, eq_refl,
}
use dcos_metrics.Producers.Store.{Object, StoreApi, HasUniqueKeys, message, foreign}
use dcos_metrics.Producers.{Datapoint, MetricsMessage}
use dcos_metrics.Prelude.Int.{ℤ}
use dcos_metrics.Producers.Cache.{
  sweep, write_all, qualified_name, message_prefix, receive, single, receive_all,
}
use dcos_metrics.Producers.Cache.History.{writes_of, get-receive_all}
use mathlib.Core.Path.{subst}
use mathlib.Core.List.{append-nil}

module _ (api : StoreApi) (expiry : ℤ) where
  abbrev pub Reached : State api → Type 0
  Reached t = Reach api expiry (start api) t

  -- The writes of one message are steps of the writer.
  pub write_all-Reached :
      (ds : List Datapoint) (m : MetricsMessage) (t : State api)
      → Reached t
      → (u : State api) × Reached u
        × (u.store ≡ write_all api ds m (message_prefix m) t.store)
        × (u.pending ≡ t.pending)
  unfolding write_all
  write_all-Reached [] m t r = (t, r, refl, refl)
  write_all-Reached (d ∷ ds) m t r = write_all-Reached ds m (written api d m t) (next r (write d m))

  sweep-total :
      (l : Dict Object) (clock : ℕ → ℤ) (i : ℕ) (s : StoreApi.Store api)
      → AllFiled api l
      → (u : StoreApi.Store api) × (sweep api expiry clock i l s ≡ some u)
  unfolding sweep
  sweep-total [] clock i s h = (s, refl)
  sweep-total ((k, foreign) ∷ l) clock i s h = let (m, d, same, one, key) = h.0 in absurd (cc)
  sweep-total ((k, message m) ∷ l) clock i s h = sweep-total l clock (suc i) _ h.1

  -- Whatever steps the writer and the janitor have taken at the same time from the empty store, and whatever the store is by now: over what the janitor has still to look at its loop ends without a panic, by any clock.
  pub sweep-pending :
      {t : State api} (r : Reached t) (clock : ℕ → ℤ) (i : ℕ) (s : StoreApi.Store api)
      → (u : StoreApi.Store api) × (sweep api expiry clock i t.pending s ≡ some u)
  sweep-pending {t} r clock i s =
      sweep-total t.pending clock i s (Reach-IsSound api r).pending_filed

latest-none :
    (k : String) (l : Dict Object) (before : Option Object)
    → lookup k l ≡ none
    → latest k l before ≡ before
unfolding lookup
latest-none k [] before h = refl
latest-none k ((j, w) ∷ l) before h = elim (Bool-cases (j == k)) [
  | inl same ↦ absurd (ground (arith, same))
  | inr other ↦ rw other (latest-none k l before (ground (arith, other)))
]

latest-Elem :
    (k : String) (v : Object) (l : Dict Object) (before : Option Object)
    → HasUniqueKeys l
    → Elem (k, v) l
    → latest k l before ≡ some v
latest-Elem k v [] before u i = absurd i
latest-Elem k v ((j, w) ∷ l) before (new_key, u) (inl e) =
    let same : k ≡ j = ap (λ p. p.0) e in
    let value : v ≡ w = ap (λ p. p.1) e in
    subst (λ x. latest x ((j, w) ∷ l) before ≡ some v) (sym same)
      (subst (λ x. latest j ((j, w) ∷ l) before ≡ some x) (sym value)
        (rw eq_refl (latest-none j l (some w) new_key)))
latest-Elem k v ((j, w) ∷ l) before (new_key, u) (inr i) =
    latest-Elem k v l (if j == k then some w else before) u i

Elem-writes_of :
    (d : Datapoint) (ds : List Datapoint) (m : MetricsMessage) (prefix : String)
    → Elem d ds
    → Elem (qualified_name prefix d, message (single d m)) (writes_of ds m prefix)
Elem-writes_of d [] m prefix i = absurd i
Elem-writes_of d (x ∷ ds) m prefix (inl e) =
    inl (ap (λ y. (qualified_name prefix y, message (single y m))) e)
Elem-writes_of d (x ∷ ds) m prefix (inr i) = inr (Elem-writes_of d ds m prefix i)

module _ (api : StoreApi) where
  open api use {Store, get}

  -- Of a message whose datapoints all have keys of their own, each datapoint is in the store after the message was received, under its key and by itself.
  pub get-receive :
      (m : MetricsMessage) (d : Datapoint) (s : Store)
      → HasUniqueKeys (writes_of m.datapoints m (message_prefix m))
      → Elem d m.datapoints
      → get (receive api m s) (qualified_name (message_prefix m) d) ≡ some (message (single d m))
  unfolding receive receive_all
  get-receive m d s u i =
      let key = qualified_name (message_prefix m) d in
      get-receive_all api key (m ∷ []) s
      ∙ ap (λ l. latest key l (get s key))
          (append-nil (writes_of m.datapoints m (message_prefix m)))
      ∙ latest-Elem key (message (single d m)) (writes_of m.datapoints m (message_prefix m))
          (get s key) u (Elem-writes_of d m.datapoints m (message_prefix m) i)
