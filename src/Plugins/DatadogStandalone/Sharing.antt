-- ===== src/Plugins/DatadogStandalone/Sharing.antt =====
-- When the metrics of a series have their own tags, and when they do not.
use dcos_metrics.Prelude.{
  ℕ, String, ◌≡◌, refl, ap, ◌∙◌, ◌⊎◌, inl, inr, none, some, List, [], ◌∷◌, ◌++◌, arith, Elem, map,
  Option-cases, ◌≤◌, sym, length, take,
}
use dcos_metrics.Plugins.DatadogStandalone.{
  datapoint_to_dd_metric, append_tags, metrics_of, Encoded, resolve, datapoint_tags, Metric,
  encode_metric, overwrite, message_series, shared, message_tags, TagSlice,
}
use dcos_metrics.Plugins.Convert.{
  Conversions, parse_datapoint_timestamp, datapoint_value_to_float64,
}
use dcos_metrics.Producers.{Datapoint, MetricsMessage}
use mathlib.Core.Path.{subst}

-- What an encoded metric says of a datapoint of its message.
abbrev pub IsEncodingOf : List String → Encoded → Datapoint → Type 0
IsEncodingOf tags x d =
    (x.metric ≡ d.name) × (x.unit ≡ d.unit) × (x.tags ≡ tags ++ datapoint_tags d.tags)

converted :
    (c : Conversions) (spare : ℕ) (tags : List String) (d : Datapoint) (cells cells' : List String)
    (m : Metric)
    → datapoint_to_dd_metric c spare tags d cells ≡ some (m, cells')
    → (m.metric ≡ d.name)
      × (m.unit ≡ d.unit)
      × (m.tags ≡ (append_tags spare tags (datapoint_tags d.tags) cells).0)
      × (cells' ≡ (append_tags spare tags (datapoint_tags d.tags) cells).1)
unfolding datapoint_to_dd_metric
converted c spare tags d cells cells' m e =
    elim (Option-cases (parse_datapoint_timestamp c d.timestamp)) [
      | inl n ↦ absurd (ground (arith, n))
      | inr (t, f) ↦ elim (Option-cases (datapoint_value_to_float64 c d.value)) [
        | inl n ↦ absurd (ground (arith, f, n))
        | inr (v, g) ↦ ground (arith, f, g)
      ]
    ]

metrics_of-none :
    (c : Conversions) (spare : ℕ) (tags : List String) (d : Datapoint) (ds : List Datapoint)
    (cells : List String)
    → datapoint_to_dd_metric c spare tags d cells ≡ none
    → metrics_of c spare tags (d ∷ ds) cells ≡ metrics_of c spare tags ds cells
unfolding metrics_of
metrics_of-none c spare tags d ds cells n = rw (n, metrics_of) refl

metrics_of-some :
    (c : Conversions) (spare : ℕ) (tags : List String) (d : Datapoint) (ds : List Datapoint)
    (cells cells' : List String) (m : Metric)
    → datapoint_to_dd_metric c spare tags d cells ≡ some (m, cells')
    → metrics_of c spare tags (d ∷ ds) cells
      ≡ (m ∷ (metrics_of c spare tags ds cells').0, (metrics_of c spare tags ds cells').1)
unfolding metrics_of
metrics_of-some c spare tags d ds cells cells' m e = rw (e, metrics_of) refl

-- Without spare cells every slice that takes tags moves to its own array.
append_tags-no_spare :
    (tags extra cells final : List String)
    → resolve tags final (append_tags 0 tags extra cells).0 ≡ tags ++ extra
unfolding append_tags resolve
append_tags-no_spare tags [] cells final = refl
append_tags-no_spare tags (x ∷ extra) cells final = ground arith

in_front :
    (c : Conversions) (tags : List String) (d : Datapoint) (ds : List Datapoint)
    (cells cells' final : List String) (host : String) (m : Metric) (x : Encoded)
    → datapoint_to_dd_metric c 0 tags d cells ≡ some (m, cells')
    → Elem x (map (encode_metric tags final host) (metrics_of c 0 tags (d ∷ ds) cells).0)
    → (x ≡ encode_metric tags final host m)
      ⊎ Elem x (map (encode_metric tags final host) (metrics_of c 0 tags ds cells').0)
in_front c tags d ds cells cells' final host m x made h =
    subst (λ r. Elem x (map (encode_metric tags final host) r.0))
      (metrics_of-some c 0 tags d ds cells cells' m made) h

encoded-IsEncodingOf :
    (c : Conversions) (tags : List String) (d : Datapoint) (cells cells' final : List String)
    (host : String) (m : Metric) (x : Encoded)
    → datapoint_to_dd_metric c 0 tags d cells ≡ some (m, cells')
    → x ≡ encode_metric tags final host m
    → IsEncodingOf tags x d
unfolding encode_metric
encoded-IsEncodingOf c tags d cells cells' final host m x made same =
    let (n, u, t, _) = converted c 0 tags d cells cells' m made in
    (
      ap (λ y. y.metric) same ∙ n,
      ap (λ y. y.unit) same ∙ u,
      ap (λ y. y.tags) same
          ∙ ap (resolve tags final) t
          ∙ append_tags-no_spare tags (datapoint_tags d.tags) cells final,
    )

metrics_of_sound :
    (c : Conversions) (tags : List String) (ds : List Datapoint) (cells final : List String)
    (host : String) (x : Encoded)
    → Elem x (map (encode_metric tags final host) (metrics_of c 0 tags ds cells).0)
    → (d : Datapoint) × Elem d ds × IsEncodingOf tags x d
metrics_of_sound c tags [] cells final host x h = absurd (unfold metrics_of in h)
metrics_of_sound c tags (d ∷ ds) cells final host x h =
    elim (Option-cases (datapoint_to_dd_metric c 0 tags d cells)) [
      | inl n ↦
          let (e, i, p) =
            metrics_of_sound c tags ds cells final host x
              (rw (metrics_of-none c 0 tags d ds cells n) at h) in
          (e, inr i, p)
      | inr ((m, cells'), made) ↦ elim (in_front c tags d ds cells cells' final host m x made h) [
        | inl same ↦
            (d, inl refl, encoded-IsEncodingOf c tags d cells cells' final host m x made same)
        | inr rest ↦
            let (e, i, p) = metrics_of_sound c tags ds cells' final host x rest in (e, inr i, p)
      ]
    ]

module _ (c : Conversions) (spare : ℕ → ℕ) where
  -- When growing the message's tags leaves no spare cells, every metric of the series of a message has the name and the unit of one of the message's datapoints, and as tags the message's and then this datapoint's.
  pub message_series_sound :
      (host : String) (m : MetricsMessage) (x : Encoded)
      → spare (length (message_tags m.dimensions)) ≡ 0
      → Elem x (message_series c spare host m)
      → (d : Datapoint) × Elem d m.datapoints × IsEncodingOf (message_tags m.dimensions) x d
  unfolding message_series
  message_series_sound host m x none_spare h =
      let tags = message_tags m.dimensions in
      let moved =
        subst
          (λ n. Elem x (
            map (encode_metric tags (metrics_of c n tags m.datapoints []).1 host)
              (metrics_of c n tags m.datapoints []).0))
          none_spare h in
      metrics_of_sound c tags m.datapoints [] (metrics_of c 0 tags m.datapoints []).1 host x moved

take-overwrite : (xs cells : List String) → take (length xs) (overwrite xs cells) ≡ xs
unfolding overwrite
take-overwrite [] cells = refl
take-overwrite (x ∷ xs) [] = ap (λ r. x ∷ r) (take-overwrite xs [])
take-overwrite (x ∷ xs) (c ∷ cells) = ap (λ r. x ∷ r) (take-overwrite xs cells)

append_tags-spare :
    (spare : ℕ) (tags extra cells : List String)
    → length extra ≤ spare
    → append_tags spare tags extra cells ≡ (shared (length extra), overwrite extra cells)
unfolding append_tags
append_tags-spare spare tags extra cells fits = ground arith

metrics_of-nil :
    (c : Conversions) (spare : ℕ) (tags cells : List String)
    → metrics_of c spare tags [] cells ≡ ([], cells)
unfolding metrics_of
metrics_of-nil c spare tags cells = refl

both_written :
    (c : Conversions) (spare : ℕ) (tags : List String) (d e : Datapoint) (m n : Metric)
    (first second : List String)
    → datapoint_to_dd_metric c spare tags d [] ≡ some (m, first)
    → datapoint_to_dd_metric c spare tags e first ≡ some (n, second)
    → metrics_of c spare tags (d ∷ e ∷ []) [] ≡ (m ∷ n ∷ [], second)
both_written c spare tags d e m n first second made made' =
    metrics_of-some c spare tags d (e ∷ []) [] first m made
    ∙ ap (λ r. (m ∷ r.0, r.1))
        (metrics_of-some c spare tags e [] first second n made'
          ∙ ap (λ r. (n ∷ r.0, r.1)) (metrics_of-nil c spare tags second))

-- What a slice of as many spare cells as `e` has tags shows after `e` has been written.
shown :
    (c : Conversions) (spare : ℕ) (tags : List String) (e : Datapoint) (n : Metric)
    (first second : List String) (s : TagSlice)
    → datapoint_to_dd_metric c spare tags e first ≡ some (n, second)
    → length (datapoint_tags e.tags) ≤ spare
    → s ≡ shared (length (datapoint_tags e.tags))
    → resolve tags second s ≡ tags ++ datapoint_tags e.tags
unfolding resolve
shown c spare tags e n first second s made fits same =
    let extra = datapoint_tags e.tags in
    let (_, _, _, cells) = converted c spare tags e first second n made in
    ap (resolve tags second) same
    ∙ ap (λ l. tags ++ take (length extra) l)
        (cells ∙ ap (λ r. r.1) (append_tags-spare spare tags extra first fits))
    ∙ ap (λ l. tags ++ l) (take-overwrite extra first)

slice_of :
    (c : Conversions) (spare : ℕ) (tags : List String) (d : Datapoint) (m : Metric)
    (cells cells' : List String)
    → datapoint_to_dd_metric c spare tags d cells ≡ some (m, cells')
    → length (datapoint_tags d.tags) ≤ spare
    → m.tags ≡ shared (length (datapoint_tags d.tags))
slice_of c spare tags d m cells cells' made fits =
    let (_, _, t, _) = converted c spare tags d cells cells' m made in
    t ∙ ap (λ r. r.0) (append_tags-spare spare tags (datapoint_tags d.tags) cells fits)

-- A message of two datapoints that are both converted and have equally many tags, which fit into the spare cells behind the message's tags: both metrics are encoded with the message's tags and those of the second datapoint.
pub tags_of_the_last :
    (c : Conversions) (spare : ℕ) (tags : List String) (d e : Datapoint) (m n : Metric)
    (first second : List String)
    → datapoint_to_dd_metric c spare tags d [] ≡ some (m, first)
    → datapoint_to_dd_metric c spare tags e first ≡ some (n, second)
    → length (datapoint_tags d.tags) ≡ length (datapoint_tags e.tags)
    → length (datapoint_tags e.tags) ≤ spare
    → (resolve tags (metrics_of c spare tags (d ∷ e ∷ []) []).1 m.tags
        ≡ tags ++ datapoint_tags e.tags)
      × (resolve tags (metrics_of c spare tags (d ∷ e ∷ []) []).1 n.tags
          ≡ tags ++ datapoint_tags e.tags)
tags_of_the_last c spare tags d e m n first second made made' same fits =
    let final = ap (λ r. r.1) (both_written c spare tags d e m n first second made made') in
    let of_first =
      slice_of c spare tags d m [] first made (subst (λ k. k ≤ spare) (sym same) fits)
      ∙ ap shared same in
    let of_second = slice_of c spare tags e n first second made' fits in
    (
      ap (λ l. resolve tags l m.tags) final
          ∙ shown c spare tags e n first second m.tags made' fits of_first,
      ap (λ l. resolve tags l n.tags) final
          ∙ shown c spare tags e n first second n.tags made' fits of_second,
    )
