-- ===== src/Producers/Prometheus/Collect/Laws.antt =====
-- What a scrape of producers/prometheus/prometheus.go publishes.
use dcos_metrics.Prelude.{
  String, ◌≡◌, refl, sym, ◌≢◌, inl, inr, false, none, some, List, [], ◌∷◌, ◌++◌, arith, ◌==◌,
  eq_iff, if◌then◌else◌, lookup_or, Dict, lookup, Elem, ◌↔◌, insert_all, insert, lookup-insert,
  Bool-cases, Elem-append_left, eq_refl, Elem-append_right, ℕ, keys, Option-cases, All, All-of_Elem,
  Elem-concat_map, suc, ap, length,
}
use dcos_metrics.Producers.{
  MetricsMessage, Value, Datapoint, float64, is_nan, text, boolean, composite, null,
}
use dcos_metrics.Producers.Prometheus.Collect.{
  ByName, add_object, coerce_to_float, add_objects, DatapointLabels, FloatConversions,
  add_datapoints, add_datapoint, dims_to_map, loop_variable, get_label_names, label_values,
  NewConstMetric, collect_all, collect_name, describe, collect, datapoint_labels_by_name, publish,
}
use dcos_metrics.Producers.Store.{Object, message, foreign}
use mathlib.Core.Path.{subst}
use dcos_metrics.Producers.Prometheus.Collect.Labels.{get_label_names_complete}

-- What is a number for `coerceToFloat`.
abbrev pub IsNumber : Value → Type 0
IsNumber (float64 bits) = is_nan bits ≡ false
IsNumber (text s) = ⊥
IsNumber (boolean b) = ⊥
IsNumber null = ⊥
IsNumber (composite s) = ⊥
IsNumber _ = Unit

-- `coerceToFloat` refuses exactly the NaN of type float64 and what is no number.
pub coerce_to_float-ne-none_iff :
    (f : FloatConversions) (v : Value) → (coerce_to_float f v ≢ none) ↔ IsNumber v
unfolding coerce_to_float
coerce_to_float-ne-none_iff f (float64 bits) = (λ h. ground arith, λ h. ground arith)
coerce_to_float-ne-none_iff f (text s) = (λ h. h refl, λ h. absurd h)
coerce_to_float-ne-none_iff f (boolean b) = (λ h. h refl, λ h. absurd h)
coerce_to_float-ne-none_iff f null = (λ h. h refl, λ h. absurd h)
coerce_to_float-ne-none_iff f (composite s) = (λ h. h refl, λ h. absurd h)
coerce_to_float-ne-none_iff f _ = (λ h. tt, λ h e. cc)

-- A message of one datapoint, as `writeObjectToStore` makes them.
abbrev pub AllSingle : Dict Object → Type 0
AllSingle [] = Unit
AllSingle ((k, foreign) ∷ l) = ⊥
AllSingle ((k, message m) ∷ l) = ((d : Datapoint) × (m.datapoints ≡ d ∷ [])) × AllSingle l

abbrev pub labels_of : MetricsMessage → Datapoint → Dict String
labels_of m d = insert_all (insert_all [] (dims_to_map m.dimensions)) d.tags

abbrev pub entry : MetricsMessage → Datapoint → DatapointLabels
entry m d = record { datapoint = d; labels = labels_of m d }

abbrev lists : String → ByName → List DatapointLabels
lists name rval = lookup_or [] name rval

lookup_or-insert :
    (name k : String) (l : List DatapointLabels) (rval : ByName)
    → lookup_or [] name (insert k l rval) ≡ (if k == name then l else lookup_or [] name rval)
unfolding lookup_or
lookup_or-insert name k l rval = ground (arith, lookup-insert k name l rval)

-- Over a message of one datapoint the shared loop variable is that datapoint.
add_object-single :
    (m : MetricsMessage) (d : Datapoint) (rval : ByName)
    → m.datapoints ≡ d ∷ []
    → add_object (message m) rval ≡ insert d.name (lists d.name rval ++ entry m d ∷ []) rval
unfolding add_object add_datapoints add_datapoint loop_variable
add_object-single m d rval e = rw e refl

add_object-keeps :
    (m : MetricsMessage) (d : Datapoint) (rval : ByName) (name : String) (kv : DatapointLabels)
    → m.datapoints ≡ d ∷ []
    → Elem kv (lists name rval)
    → Elem kv (lists name (add_object (message m) rval))
add_object-keeps m d rval name kv e h = rw (add_object-single m d rval e) (
    rw (lookup_or-insert name d.name (lists d.name rval ++ entry m d ∷ []) rval)
      (elim (Bool-cases (d.name == name)) [
        | inl same ↦ rw same (
            Elem-append_left kv (lists d.name rval) _
              (subst (λ n. Elem kv (lists n rval)) (sym ((eq_iff d.name name).0 same)) h))
        | inr other ↦ rw other h
      ]))

add_objects-keeps :
    (mm : Dict Object) (rval : ByName) (name : String) (kv : DatapointLabels)
    → AllSingle mm
    → Elem kv (lists name rval)
    → Elem kv (lists name (add_objects mm rval))
unfolding add_objects
add_objects-keeps [] rval name kv a h = h
add_objects-keeps ((k, foreign) ∷ mm) rval name kv a h = absurd a
add_objects-keeps ((k, message m) ∷ mm) rval name kv ((d, e), a) h =
    add_objects-keeps mm _ name kv a (add_object-keeps m d rval name kv e h)

add_objects-found :
    (mm : Dict Object) (rval : ByName) (k : String) (m : MetricsMessage) (d : Datapoint)
    → AllSingle mm
    → lookup k mm ≡ some (message m)
    → m.datapoints ≡ d ∷ []
    → Elem (entry m d) (lists d.name (add_objects mm rval))
unfolding add_objects lookup
add_objects-found [] rval k m d a g e = cc
add_objects-found ((j, foreign) ∷ mm) rval k m d a g e = absurd a
add_objects-found ((j, message o) ∷ mm) rval k m d ((d', e'), a) g e = elim (Bool-cases (j == k)) [
  | inl same ↦
      let o≡m : o ≡ m = ground (arith, same) in
      add_objects-keeps mm _ d.name (entry m d) a (
        subst (λ x. Elem (entry m d) (lists d.name (add_object (message x) rval))) (sym o≡m)
          (rw (add_object-single m d rval e) (
            rw (lookup_or-insert d.name d.name (lists d.name rval ++ entry m d ∷ []) rval) (
              rw (eq_refl d.name)
                (Elem-append_right (entry m d) (lists d.name rval) _ (inl refl))))))
  | inr other ↦ add_objects-found mm _ k m d a (ground (arith, other)) e
]

module _ {M : Type 0} (f : FloatConversions) (new_const_metric : NewConstMetric M) where
  collect_all-found :
      (rval : ByName) (name : String) (l : List DatapointLabels) (x : M)
      → lookup name rval ≡ some l
      → Elem x (collect_name f new_const_metric name l)
      → Elem x (collect_all f new_const_metric rval)
  unfolding collect_all lookup
  collect_all-found [] name l x e h = cc
  collect_all-found ((k, l') ∷ rval) name l x e h = elim (Bool-cases (k == name)) [
    | inl same ↦
        let l'≡l : l' ≡ l = ground (arith, same) in
        Elem-append_left x _ _ (
          subst (λ n. Elem x (collect_name f new_const_metric n l')) (sym ((eq_iff k name).0 same))
            (subst (λ y. Elem x (collect_name f new_const_metric name y)) (sym l'≡l) h))
    | inr other ↦
        Elem-append_right x _ _ (collect_all-found rval name l x (ground (arith, other)) h)
  ]

  collect_lists :
      (rval : ByName) (name : String) (kv : DatapointLabels) (x : M)
      → Elem kv (lists name rval)
      → Elem x (collect_name f new_const_metric name (lists name rval))
      → Elem x (collect_all f new_const_metric rval)
  collect_lists rval name kv x h i = elim (Option-cases (lookup name rval)) [
    | inl e ↦
        absurd (unfold lookup_or in subst (λ o. Elem kv (elim o [ none ↦ [] | some v ↦ v ])) e h)
    | inr (l, e) ↦ collect_all-found rval name l x e (
        unfold lookup_or in
        subst
          (λ o. Elem x (collect_name f new_const_metric name (elim o [ none ↦ [] | some v ↦ v ]))) e
          i)
  ]

  sent :
      (rval : ByName) (m : MetricsMessage) (d : Datapoint) (val : ℕ) (metric : M)
      → Elem (entry m d) (lists d.name rval)
      → coerce_to_float f d.value ≡ some val
      → new_const_metric
          (describe d.name (get_label_names (lists d.name rval)))
          val
          (label_values (get_label_names (lists d.name rval)) (labels_of m d))
        ≡ some metric
      → Elem metric (collect_all f new_const_metric rval)
  unfolding collect_name publish coerce_to_float
  sent rval m d val metric found c made =
      collect_lists rval d.name (entry m d) metric found
        (Elem-concat_map _ (entry m d) metric (lists d.name rval) found (rw c (rw made (inl refl))))

  -- A value for each name.
  length-label_values :
      (names : List String) (labels : Dict String)
      → length (label_values names labels) ≡ length names
  unfolding label_values
  length-label_values [] labels = refl
  length-label_values (n ∷ names) labels = ap suc (length-label_values names labels)

  -- Where every stored message has one datapoint: for a stored datapoint with a numeric value the library is asked with its sanitised name, with label names that include each of its labels, and with as many values, those of the labels; whatever metric the library makes of it is sent.
  pub collect_complete :
      (mm : Dict Object) (k : String) (m : MetricsMessage) (d : Datapoint) (val : ℕ)
      → AllSingle mm
      → lookup k mm ≡ some (message m)
      → m.datapoints ≡ d ∷ []
      → coerce_to_float f d.value ≡ some val
      → (names : List String) × ((metric : M)
          → new_const_metric (describe d.name names) val (label_values names (labels_of m d))
            ≡ some metric
          → Elem metric (collect f new_const_metric mm))
        × All (λ n. Elem n names) (keys (labels_of m d))
        × (length (label_values names (labels_of m d)) ≡ length names)
  unfolding collect datapoint_labels_by_name
  collect_complete mm k m d val a g e c =
      let l = lists d.name (add_objects mm []) in
      let found = add_objects-found mm [] k m d a g e in
      let names = get_label_names l in
      (
        names,
        (λ metric made. sent (add_objects mm []) m d val metric found c made),
        All-of_Elem _ (λ n i. get_label_names_complete l (entry m d) n found i),
        length-label_values names (labels_of m d),
      )

-- Of a message of two datapoints with different names, the entry under the first name shows the second datapoint, with the labels of the first: the pointers are to one loop variable.
pub loop_variable_shared :
    (m : MetricsMessage) (d e : Datapoint)
    → m.datapoints ≡ d ∷ e ∷ []
    → (e.name == d.name) ≡ false
    → lookup_or [] d.name (add_object (message m) [])
      ≡ record { datapoint = e; labels = labels_of m d } ∷ []
unfolding add_object add_datapoints add_datapoint loop_variable lookup_or lookup
loop_variable_shared m d e two ne = rw two (
    rw (lookup_or-insert d.name e.name _ _)
      (rw ne (rw (lookup_or-insert d.name d.name _ _) (rw (eq_refl d.name) refl))))
