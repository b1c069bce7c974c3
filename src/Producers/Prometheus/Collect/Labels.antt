-- ===== src/Producers/Prometheus/Collect/Labels.antt =====
-- The label names of a scrape, `getLabelNames` of producers/prometheus/prometheus.go.
use mathlib.Core.Path.{subst}
use dcos_metrics.Prelude.{
  suc, String, ◌≡◌, refl, ap, inl, inr, Bool, true, some, List, [], ◌∷◌, arith, eq_iff, keys, Dict,
  insert, Elem, lookup, length, lookup-insert, Elem-keys,
}
use dcos_metrics.Producers.Prometheus.Collect.{
  get_label_names, name_map, label_values, add_names, DatapointLabels, describe, Desc,
}

-- Label names are never taken out again, and every label of every entry is among them.
abbrev Named : String → Dict Bool → Type 0
Named n names = lookup n names ≡ some true

add_names-keeps :
    (labels : Dict String) (names : Dict Bool) (n : String)
    → Named n names
    → Named n (add_names labels names)
unfolding add_names
add_names-keeps [] names n h = h
add_names-keeps ((k, v) ∷ labels) names n h =
    add_names-keeps labels (insert k true names) n (ground (arith, lookup-insert k n true names))

add_names-found :
    (labels : Dict String) (names : Dict Bool) (n : String)
    → Elem n (keys labels)
    → Named n (add_names labels names)
unfolding add_names keys
add_names-found [] names n h = absurd h
add_names-found ((k, v) ∷ labels) names n (inl e) =
    add_names-keeps labels (insert k true names) n
      (ground (arith, lookup-insert k n true names, eq_iff k n))
add_names-found ((k, v) ∷ labels) names n (inr h) = add_names-found labels (insert k true names) n h

name_map-keeps :
    (l : List DatapointLabels) (names : Dict Bool) (n : String)
    → Named n names
    → Named n (name_map l names)
unfolding name_map
name_map-keeps [] names n h = h
name_map-keeps (kv ∷ l) names n h =
    name_map-keeps l (add_names kv.labels names) n (add_names-keeps kv.labels names n h)

name_map-found :
    (l : List DatapointLabels) (names : Dict Bool) (kv : DatapointLabels) (n : String)
    → Elem kv l
    → Elem n (keys kv.labels)
    → Named n (name_map l names)
unfolding name_map
name_map-found [] names kv n h i = absurd h
name_map-found (x ∷ l) names kv n (inl e) i =
    name_map-keeps l _ n (
      add_names-found x.labels names n
        (subst (λ (y : DatapointLabels). Elem n (keys y.labels)) e i))
name_map-found (x ∷ l) names kv n (inr h) i = name_map-found l _ kv n h i

-- A scrape has a column for each label of each datapoint of that name.
pub get_label_names_complete :
    (l : List DatapointLabels) (kv : DatapointLabels) (n : String)
    → Elem kv l
    → Elem n (keys kv.labels)
    → Elem n (get_label_names l)
unfolding get_label_names
get_label_names_complete l kv n h i =
    Elem-keys n (name_map l []) true (name_map-found l [] kv n h i)

-- As many label values are given as the description has labels.
pub length-label_values :
    (names : List String) (labels : Dict String) (name : String)
    → length (label_values names labels) ≡ length (Desc.variable_labels (describe name names))
unfolding label_values describe
length-label_values [] labels name = refl
length-label_values (n ∷ names) labels name = ap suc (length-label_values names labels name)
