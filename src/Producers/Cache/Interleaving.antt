-- ===== src/Producers/Cache/Interleaving.antt =====
-- The receiving goroutine and the janitor run side by side: each call of the store is one step.
use dcos_metrics.Prelude.{
  Dict, String, ◌≡◌, refl, sym, ap, ◌∙◌, inl, inr, [], ◌∷◌, arith, ◌==◌, eq_iff, if◌then◌else◌,
  some, lookup, eq_refl, Bool-cases,
}
use dcos_metrics.Producers.Store.{Object, StoreApi, message, HasUniqueKeys}
use dcos_metrics.Prelude.Int.{ℤ}
use dcos_metrics.Producers.{Datapoint, MetricsMessage}
use dcos_metrics.Producers.Cache.{
  message_prefix, write_object_to_store, single, is_stale, qualified_name,
}
use mathlib.Core.Path.{subst}

module _ (api : StoreApi) where
  open api use {
    Store, get, new, set, delete, objects, get-new, get-set, get-delete, lookup-objects,
    objects-HasUniqueKeys,
  }

  -- The store, and what the janitor has still to look at of its last `Objects()`.
  pub record State : Type 0 where
    pub store : Store
    pub pending : Dict Object

  -- An object that the producer wrote: one datapoint, under its own name.
  abbrev pub IsFiled : String → Object → Type 0
  IsFiled k o =
      (m : MetricsMessage) × (d : Datapoint) × (o ≡ message m)
      × (m.datapoints ≡ d ∷ [])
      × (k ≡ qualified_name (message_prefix m) d)

  abbrev pub AllFiled : Dict Object → Type 0
  AllFiled [] = Unit
  AllFiled ((k, o) ∷ l) = IsFiled k o × AllFiled l

  abbrev pub written : Datapoint → MetricsMessage → State → State
  written d m s = record s { store = write_object_to_store api d m (message_prefix m) s.store }

  -- The janitor has looked at the first pending object.
  abbrev pub looked : ℤ → ℤ → String → MetricsMessage → Dict Object → State → State
  looked expiry now k m l s = record {
    store = if is_stale expiry now m then delete s.store k else s.store;
    pending = l;
  }

  pub data Step (expiry : ℤ) (s : State) : State → Type 0 where
    write : (d : Datapoint) (m : MetricsMessage) → Step expiry s (written d m s)
    tick : s.pending ≡ [] → Step expiry s (record s { pending = objects s.store })
    look :
        (now : ℤ) (k : String) (m : MetricsMessage) (l : Dict Object)
        → s.pending ≡ (k, message m) ∷ l
        → Step expiry s (looked expiry now k m l s)

  pub data Reach (expiry : ℤ) (s : State) : State → Type 0 where
    here : Reach expiry s s
    next : {t u : State} → Reach expiry s t → Step expiry t u → Reach expiry s u

  abbrev pub start : State
  start = record { store = new; pending = [] }

  pub record IsSound (s : State) : Type 0 where
    pub filed : (k : String) (o : Object) → get s.store k ≡ some o → IsFiled k o
    pub pending_filed : AllFiled s.pending

  AllFiled-of_lookup :
      (l : Dict Object)
      → HasUniqueKeys l
      → ((k : String) (o : Object) → lookup k l ≡ some o → IsFiled k o)
      → AllFiled l
  unfolding lookup
  AllFiled-of_lookup [] u h = tt
  AllFiled-of_lookup ((j, o) ∷ l) u h = (
    h j o (rw eq_refl refl),
    AllFiled-of_lookup l u.1 (λ k p e. h k p (ground (arith, eq_iff j k))),
  )

  message_prefix-single :
      (d : Datapoint) (m : MetricsMessage) → message_prefix (single d m) ≡ message_prefix m
  unfolding message_prefix
  message_prefix-single d m = refl

  IsFiled-after_set :
      (s : Store) (d : Datapoint) (m : MetricsMessage)
      → ((k : String) (o : Object) → get s k ≡ some o → IsFiled k o)
      → (k : String) (o : Object)
      → get (write_object_to_store api d m (message_prefix m) s) k ≡ some o
      → IsFiled k o
  unfolding write_object_to_store
  IsFiled-after_set s d m filed k o e =
      let key = qualified_name (message_prefix m) d in
      let g = get-set s key k (message (single d m)) in
      elim (Bool-cases (key == k)) [
        | inl same ↦ (
          single d m,
          d,
          ground arith,
          refl,
          sym ((eq_iff key k).0 same)
              ∙ ap (λ p. qualified_name p d) (sym (message_prefix-single d m)),
        )
        | inr other ↦ filed k o (ground arith)
      ]

  Step-IsSound : {expiry : ℤ} {s t : State} → IsSound s → Step expiry s t → IsSound t
  Step-IsSound {s = s} v (write d m) = record {
    filed = IsFiled-after_set s.store d m v.filed;
    pending_filed = v.pending_filed;
  }
  Step-IsSound {s = s} v (tick e) = record {
    filed = v.filed;
    pending_filed =
        AllFiled-of_lookup (objects s.store) (objects-HasUniqueKeys s.store)
          (λ k o e. v.filed k o (sym (lookup-objects s.store k) ∙ e));
  }
  Step-IsSound {s = s} v (look now k m l e) = record {
    filed = λ j o g. v.filed j o (ground (arith, get-delete s.store k j));
    pending_filed = (subst AllFiled e v.pending_filed).1;
  }

  -- The invariant holds in every state that the two can reach.
  pub Reach-IsSound : {expiry : ℤ} {t : State} → Reach expiry start t → IsSound t
  Reach-IsSound here = record { filed = λ k o e. absurd (cc (get-new k)); pending_filed = tt }
  Reach-IsSound (next r st) = Step-IsSound (Reach-IsSound r) st

  -- From the empty store, however the writes and the janitor's steps interleave, every object in the store is a message of one datapoint, under the qualified name of that datapoint and that message.
  pub stored-IsFiled :
      {expiry : ℤ} {t : State} (r : Reach expiry start t) (k : String) (o : Object)
      → get t.store k ≡ some o
      → IsFiled k o
  stored-IsFiled r k o e = (Reach-IsSound r).filed k o e
