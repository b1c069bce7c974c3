-- ===== src/Producers/Cache/Janitor.antt =====
-- One tick of the janitor that no writer interrupts.
use dcos_metrics.Prelude.{
  ℕ, suc, String, ◌≡◌, ◌≢◌, refl, ◌∙◌, Bool, none, some, [], ◌∷◌, Dict, lookup, eq_iff,
  if◌then◌else◌, arith, true,
}
use dcos_metrics.Prelude.Int.{ℤ}
use dcos_metrics.Producers.{MetricsMessage}
use dcos_metrics.Producers.Store.{Object, message, foreign, HasUniqueKeys, StoreApi}
use dcos_metrics.Producers.Cache.{is_stale, sweep, janitor_tick}

-- Every object is a `MetricsMessage`.
abbrev pub AllMessages : Dict Object → Type 0
AllMessages [] = Unit
AllMessages ((k, o) ∷ l) = (o ≢ foreign) × AllMessages l

pub AllMessages-of_lookup :
    (l : Dict Object) → HasUniqueKeys l → ((k : String) → lookup k l ≢ some foreign) → AllMessages l
unfolding lookup
AllMessages-of_lookup [] u h = tt
AllMessages-of_lookup ((j, o) ∷ l) u h = (
  λ e. h j (ground (arith, eq_iff j j)),
  AllMessages-of_lookup l u.1 (λ k. ground (arith, h k, eq_iff j k)),
)

module _ (api : StoreApi) (expiry : ℤ) (now : ℕ → ℤ) where
  open api use {Store, get, objects, delete, get-delete, lookup-objects, objects-HasUniqueKeys}

  sweep_total :
      (i : ℕ) (l : Dict Object) (s : Store)
      → AllMessages l
      → (t : Store) × (sweep api expiry now i l s ≡ some t)
  unfolding sweep
  sweep_total i [] s h = (s, refl)
  sweep_total i ((k, foreign) ∷ l) s h = absurd (h.0 refl)
  sweep_total i ((k, message m) ∷ l) s h = sweep_total (suc i) l _ h.1

  sweep-none :
      (i : ℕ) (l : Dict Object) (s t : Store) (k : String)
      → sweep api expiry now i l s ≡ some t
      → lookup k l ≡ none
      → get t k ≡ get s k
  unfolding sweep lookup
  sweep-none i [] s t k e h = ground arith
  sweep-none i ((j, foreign) ∷ l) s t k e h = cc
  sweep-none i ((j, message m) ∷ l) s t k e h = ground (
    arith,
    sweep-none (suc i) l (if is_stale expiry (now i) m then delete s j else s) t k,
    get-delete s j k,
  )

  -- Where each reading of the clock during the tick gives the same verdict on a message.
  sweep-some :
      (i : ℕ) (l : Dict Object) (s t : Store) (k : String) (m : MetricsMessage) (b : Bool)
      → HasUniqueKeys l
      → ((n : ℕ) → is_stale expiry (now n) m ≡ b)
      → sweep api expiry now i l s ≡ some t
      → lookup k l ≡ some (message m)
      → get s k ≡ some (message m)
      → get t k ≡ (if b then none else some (message m))
  unfolding sweep lookup
  sweep-some i [] s t k m b u v e h g = cc
  sweep-some i ((j, foreign) ∷ l) s t k m b u v e h g = cc
  sweep-some i ((j, message o) ∷ l) s t k m b u v e h g =
      let s' = if is_stale expiry (now i) o then delete s j else s in
      ground (
        arith,
        v i,
        eq_iff j k,
        get-delete s j k,
        sweep-none (suc i) l s' t k,
        sweep-some (suc i) l s' t k m b u.1 v,
      )

  -- Where the tick finds a message stale, nothing is left under its key, whatever the store holds there by now.
  pub sweep-stale :
      (i : ℕ) (l : Dict Object) (s t : Store) (k : String) (m : MetricsMessage)
      → HasUniqueKeys l
      → ((n : ℕ) → is_stale expiry (now n) m ≡ true)
      → sweep api expiry now i l s ≡ some t
      → lookup k l ≡ some (message m)
      → get t k ≡ none
  unfolding sweep lookup
  sweep-stale i [] s t k m u v e h = cc
  sweep-stale i ((j, foreign) ∷ l) s t k m u v e h = cc
  sweep-stale i ((j, message o) ∷ l) s t k m u v e h =
      let s' = if is_stale expiry (now i) o then delete s j else s in
      ground (
        arith,
        v i,
        eq_iff j k,
        get-delete s j k,
        sweep-none (suc i) l s' t k,
        sweep-stale (suc i) l s' t k m u.1 v,
      )

  -- From a store that holds nothing but messages a tick does not panic. A message on which all readings of the clock agree is gone when they find it older than the expiry, and is still there when they do not.
  pub janitor_tick_exact :
      (s : Store) (k : String) (m : MetricsMessage) (stale : Bool)
      → ((j : String) → get s j ≢ some foreign)
      → get s k ≡ some (message m)
      → ((n : ℕ) → is_stale expiry (now n) m ≡ stale)
      → (t : Store) × (janitor_tick api expiry now s ≡ some t)
        × (get t k ≡ (if stale then none else some (message m)))
  unfolding janitor_tick
  janitor_tick_exact s k m stale clean found verdict =
      let all =
        AllMessages-of_lookup (objects s) (objects-HasUniqueKeys s)
          (λ j. rw (lookup-objects s j) (clean j)) in
      let (t, done) = sweep_total 0 (objects s) s all in
      (
        t,
        done,
        sweep-some 0 (objects s) s t k m stale (objects-HasUniqueKeys s) verdict done
            (lookup-objects s k ∙ found) found,
      )

  -- A tick adds nothing.
  pub janitor_tick-none :
      (s t : Store) (k : String)
      → janitor_tick api expiry now s ≡ some t
      → get s k ≡ none
      → get t k ≡ none
  unfolding janitor_tick
  janitor_tick-none s t k e h = sweep-none 0 (objects s) s t k e (lookup-objects s k ∙ h) ∙ h
