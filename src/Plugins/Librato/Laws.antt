-- ===== src/Plugins/Librato/Laws.antt =====
-- plugins/librato/measurement.go and post_request.go: what the measurements that are posted look like.
use mathlib.Core.Path.{subst}
use dcos_metrics.Plugins.Librato.{add, add_tag, ten_minutes, quotient, add_datapoints}
use dcos_metrics.Prelude.{
  ℕ, suc, ◌+◌, String, ◌≡◌, refl, sym, ap, ◌∙◌, inl, inr, Bool, true, false, none, some, List, [],
  ◌∷◌, arith, ◌==◌, if◌then◌else◌, insert, Bool-cases, Dict, All, Option-cases, All-append, length,
}
use dcos_metrics.Plugins.Librato.{
  set_tag, Measurement, set_tags, is_tag_name, PostRequestOpts, finished, measure, tagged,
  is_tag_value, validate, floor_time, set_value, dimension_tags, named, label_tags,
}
use dcos_metrics.Plugins.Convert.{
  Conversions, datapoint_value_to_float64, parse_datapoint_timestamp,
}
use dcos_metrics.Producers.Prometheus.Sanitize.{codes}
use dcos_metrics.Producers.{Dimensions, Value, Datapoint, MetricsMessage}
use dcos_metrics.Prelude.Int.{ℤ, ◌*ℤ◌, pos, ltb_ℤ, ◌-ℤ◌}

abbrev pub IsLegalTag : String × String → Type 0
IsLegalTag (name, value) = (is_tag_name (codes name) ≡ true) × (is_tag_value (codes value) ≡ true)

module _ (P : String × String → Type 0) where
  All-insert : (k v : String) (m : Dict String) → P (k, v) → All P m → All P (insert k v m)
  unfolding insert
  All-insert k v [] p h = (p, tt)
  All-insert k v ((j, w) ∷ m) p (q, h) = elim (Bool-cases (j == k)) [
    | inl same ↦ rw same (p, h)
    | inr other ↦ rw other (q, All-insert k v m p h)
  ]

-- What tagging leaves as it is, and what it keeps.
abbrev pub IsTagged : Measurement → Measurement → Type 0
IsTagged before m = (m.time ≡ before.time) × (All IsLegalTag before.tags → All IsLegalTag m.tags)

IsTagged-trans : (a b m : Measurement) → IsTagged a b → IsTagged b m → IsTagged a m
IsTagged-trans a b m (t, h) (u, k) = (u ∙ t, λ x. k (h x))

add_tag-IsTagged : (name value : String) (m : Measurement) → IsTagged m (add_tag name value m)
unfolding add_tag
add_tag-IsTagged name value m = elim (Bool-cases (is_tag_name (codes name))) [
  | inr bad ↦ rw bad (refl, λ h. h)
  | inl good ↦ elim (Bool-cases (is_tag_value (codes value))) [
    | inr bad ↦ rw (good, bad) (refl, λ h. h)
    | inl fits ↦ rw (good, fits) (refl, λ h. All-insert IsLegalTag name value m.tags (good, fits) h)
  ]
]

set_tag-IsTagged : (name value : String) (m : Measurement) → IsTagged m (set_tag name value m)
unfolding set_tag
set_tag-IsTagged name value m = elim (Bool-cases (value == "")) [
  | inl e ↦ rw e (refl, λ h. h)
  | inr e ↦ rw e (add_tag-IsTagged name value m)
]

set_tags-IsTagged : (tags : Dict String) (m : Measurement) → IsTagged m (set_tags tags m)
unfolding set_tags
set_tags-IsTagged [] m = (refl, λ h. h)
set_tags-IsTagged ((k, v) ∷ tags) m =
    IsTagged-trans m (set_tag k v m) (set_tags tags (set_tag k v m)) (set_tag-IsTagged k v m)
      (set_tags-IsTagged tags (set_tag k v m))

some_of_if :
    (b : Bool) (v m : Measurement) → (if b then some v else none) ≡ some m → (b ≡ true) × (v ≡ m)
some_of_if true v m h = (refl, ground (arith, h))
some_of_if false v m h = cc

floor_time-multiple :
    (i : ℤ) (k : ℕ) (m : Measurement)
    → i ≡ pos (suc k)
    → ((floor_time i m).tags ≡ m.tags) × (q : ℤ) × ((floor_time i m).time ≡ q *ℤ pos (suc k))
unfolding floor_time
floor_time-multiple i k m e = rw e (refl, quotient m.time (suc k), refl)

-- A measurement that the service takes: a name, a tag, tags that are all legal, and a positive time in whole intervals.
abbrev pub IsPostable : ℤ → Measurement → Type 0
IsPostable interval m =
    (validate m ≡ true) × All IsLegalTag m.tags × (q : ℤ) × (m.time ≡ q *ℤ interval)

module _ (c : Conversions) (opts : PostRequestOpts) where
  tagged-IsTagged :
      (d : Dimensions) (tags : Dict String) (m : Measurement) → IsTagged m (tagged c opts d tags m)
  unfolding tagged
  tagged-IsTagged d tags m =
      let own = set_tags tags m in
      let dims = set_tags (dimension_tags d) own in
      IsTagged-trans m own (set_tags (label_tags d.labels) dims) (set_tags-IsTagged tags m) (
        IsTagged-trans own dims (set_tags (label_tags d.labels) dims)
          (set_tags-IsTagged (dimension_tags d) own) (set_tags-IsTagged (label_tags d.labels) dims))

  finished-some :
      (value : Value) (before m : Measurement)
      → finished c opts value before ≡ some m
      → (validate m ≡ true) × (m.tags ≡ before.tags) × (m.time ≡ before.time)
  unfolding finished set_value
  finished-some value before m h = elim (Option-cases (datapoint_value_to_float64 c value)) [
    | inl n ↦ absurd (ground (arith, n))
    | inr (bits, e) ↦
        let valued = record before { value = bits } in
        let (valid, same) = some_of_if (validate valued) valued m (rw e at h) in
        (
          subst (λ x. validate x ≡ true) same valid,
          sym (ap (λ x. x.tags) same),
          sym (ap (λ x. x.time) same),
        )
  ]

  measure-IsPostable :
      (k : ℕ) (now : ℤ) (d : Dimensions) (dp : Datapoint) (m : Measurement)
      → opts.polling_interval ≡ pos (suc k)
      → measure c opts now d dp ≡ some m
      → IsPostable (pos (suc k)) m
  unfolding measure floor_time named
  measure-IsPostable k now d dp m p h =
      elim (Option-cases (parse_datapoint_timestamp c dp.timestamp)) [
        | inl n ↦ absurd (ground (arith, n))
        | inr (t, e) ↦ elim (Bool-cases (ltb_ℤ t (now -ℤ ten_minutes))) [
          | inl old ↦ absurd (ground (arith, e, old))
          | inr young ↦
              let from = floor_time opts.polling_interval (named c opts dp.name t) in
              let (valid, tags, time) =
                finished-some dp.value (tagged c opts d dp.tags from) m (rw (e, young) at h) in
              let (time_kept, legal) = tagged-IsTagged d dp.tags from in
              let (untagged, q, floored) =
                floor_time-multiple opts.polling_interval k (named c opts dp.name t) p in
              (
                valid,
                subst (All IsLegalTag) (sym tags)
                    (legal (subst (All IsLegalTag) (sym untagged) tt)),
                q,
                time ∙ time_kept ∙ floored,
              )
        ]
      ]

  add_datapoints-IsPostable :
      (k : ℕ) (now : ℕ → ℤ) (i : ℕ) (d : Dimensions) (dps : List Datapoint)
      → opts.polling_interval ≡ pos (suc k)
      → All (IsPostable (pos (suc k))) (add_datapoints c opts now i d dps)
  unfolding add_datapoints
  add_datapoints-IsPostable k now i d [] p = tt
  add_datapoints-IsPostable k now i d (dp ∷ dps) p =
      let rest = add_datapoints-IsPostable k now (suc i) d dps p in
      elim (Option-cases (measure c opts (now i) d dp)) [
        | inl n ↦ rw (n, add_datapoints) rest
        | inr (m, e) ↦ rw (e, add_datapoints) (measure-IsPostable k (now i) d dp m p e, rest)
      ]

  -- With a polling interval of at least one second, every measurement that `add` makes of the messages passes `validate` (it has a name, a tag and a positive time), has only tags whose names and values are legal, and has a time that is a multiple of the interval.
  pub add-IsPostable :
      (k : ℕ) (now : ℕ → ℤ) (i : ℕ) (ms : List MetricsMessage)
      → opts.polling_interval ≡ pos (suc k)
      → All (IsPostable (pos (suc k))) (add c opts now i ms)
  unfolding add
  add-IsPostable k now i [] p = tt
  add-IsPostable k now i (m ∷ ms) p =
      All-append (IsPostable (pos (suc k))) (add_datapoints c opts now i m.dimensions m.datapoints)
        (add c opts now (i + length m.datapoints) ms)
        (add_datapoints-IsPostable k now i m.dimensions m.datapoints p)
        (add-IsPostable k now (i + length m.datapoints) ms p)
