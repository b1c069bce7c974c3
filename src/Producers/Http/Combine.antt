-- ===== src/Producers/Http/Combine.antt =====
-- `combineMessages` and the end of each handler: what a list of stored objects is answered by.
use dcos_metrics.Prelude.{
  String, ◌≡◌, refl, ap, ◌⊎◌, inl, inr, Bool, false, some, [], ◌∷◌, ◌++◌, arith, ◌==◌, eq_iff,
  if◌then◌else◌, Dict, lookup, eq_refl, Bool-cases, Elem, Elem-append_left, Elem-append_right,
  Elem-append_cases,
}
use dcos_metrics.Producers.Http.{
  combine_from, combine_messages, no_message, combine_and_encode, encode, combined, error,
}
use dcos_metrics.Producers.{Datapoint, MetricsMessage}
use dcos_metrics.Producers.Store.{Object, HasUniqueKeys, message, foreign}
use dcos_metrics.Producers.Cache.Janitor.{AllMessages}
use mathlib.Core.Path.{subst}

combine_from-Has_acc :
    (d : Datapoint) (acc : MetricsMessage) (mm : Dict Object)
    → Elem d acc.datapoints
    → Elem d (combine_from acc mm).0.datapoints
unfolding combine_from
combine_from-Has_acc d acc [] h = h
combine_from-Has_acc d acc ((k, foreign) ∷ mm) h = h
combine_from-Has_acc d acc ((k, message m) ∷ mm) h =
    combine_from-Has_acc d _ mm (Elem-append_left d acc.datapoints m.datapoints h)

combine_from-Elem :
    (d : Datapoint) (acc : MetricsMessage) (mm : Dict Object) (k : String) (m : MetricsMessage)
    → AllMessages mm
    → lookup k mm ≡ some (message m)
    → Elem d m.datapoints
    → Elem d (combine_from acc mm).0.datapoints
unfolding combine_from lookup
combine_from-Elem d acc [] k m a e h = cc
combine_from-Elem d acc ((j, foreign) ∷ mm) k m a e h = absurd (a.0 refl)
combine_from-Elem d acc ((j, message o) ∷ mm) k m a e h = elim (Bool-cases (j == k)) [
  | inl same ↦
      let e' : m ≡ o = ground (arith, same) in
      combine_from-Has_acc d _ mm (
        Elem-append_right d acc.datapoints o.datapoints
          (subst (λ (x : MetricsMessage). Elem d x.datapoints) e' h))
  | inr other ↦ combine_from-Elem d _ mm k m a.1 (ground (arith, other)) h
]

combine_from-no_failure :
    (acc : MetricsMessage) (mm : Dict Object) → AllMessages mm → (combine_from acc mm).1 ≡ false
unfolding combine_from
combine_from-no_failure acc [] a = refl
combine_from-no_failure acc ((k, foreign) ∷ mm) a = absurd (a.0 refl)
combine_from-no_failure acc ((k, message m) ∷ mm) a = combine_from-no_failure _ mm a.1

-- What is combined stood in one of the stored messages.
combine_from_sound :
    (d : Datapoint) (acc : MetricsMessage) (mm : Dict Object)
    → HasUniqueKeys mm
    → Elem d (combine_from acc mm).0.datapoints
    → Elem d acc.datapoints
      ⊎ ((k : String) × (m : MetricsMessage) × (lookup k mm ≡ some (message m))
          × Elem d m.datapoints)
unfolding combine_from lookup
combine_from_sound d acc [] u h = inl h
combine_from_sound d acc ((j, foreign) ∷ mm) u h = inl h
combine_from_sound d acc ((j, message o) ∷ mm) u h = elim (combine_from_sound d _ mm u.1 h) [
  | inl i ↦ elim (Elem-append_cases d acc.datapoints o.datapoints i) [
    | inl a ↦ inl a
    | inr b ↦ inr (j, o, rw eq_refl refl, b)
  ]
  | inr (k, m, e, b) ↦ inr (k, m, ground (arith, eq_iff j k), b)
]

pub combine_messages-Elem :
    (d : Datapoint) (mm : Dict Object) (k : String) (m : MetricsMessage)
    → AllMessages mm
    → lookup k mm ≡ some (message m)
    → Elem d m.datapoints
    → Elem d (combine_messages mm).0.datapoints
unfolding combine_messages
combine_messages-Elem d mm k m a e h = combine_from-Elem d no_message mm k m a e h

pub combine_messages_sound :
    (d : Datapoint) (mm : Dict Object)
    → HasUniqueKeys mm
    → Elem d (combine_messages mm).0.datapoints
    → (k : String) × (m : MetricsMessage) × (lookup k mm ≡ some (message m)) × Elem d m.datapoints
unfolding combine_messages
combine_messages_sound d mm u h = elim (combine_from_sound d no_message mm u h) [
  | inl i ↦ absurd i
  | inr f ↦ f
]

-- Over messages the end of a handler only encodes.
pub combine_and_encode-AllMessages :
    (mm : Dict Object)
    → AllMessages mm
    → combine_and_encode mm ≡ encode (combined (combine_messages mm).0)
combine_and_encode-AllMessages mm a =
    unfold combine_and_encode combine_messages in
    ap
      (λ (failed : Bool).
        (if failed then error 500 "Unsupported message type" ∷ [] else [])
        ++ encode (combined (combine_from no_message mm).0))
      (combine_from-no_failure no_message mm a)
