-- ===== src/Producers/SortTags/Laws.antt =====
-- `SortTags` of util/producers/producers.go: the keys come in order, and the order in which Go
-- ranges over the map does not show.
use mathlib.Core.List.{Permᴰ}
use dcos_metrics.Prelude.{
  String, ◌≡◌, refl, ap, ap₂, ◌∙◌, true, List, [], ◌∷◌, map, Dict, lookup, lookup_or, keys, str_le,
  str_le_total, str_le_trans, str_le_antisymm, arith,
}
use dcos_metrics.Producers.SortTags.{insert_sorted, sort_strings, with_values, sort_tags}

abbrev pub IsSorted : List String → Type 0
IsSorted [] = Unit
IsSorted (k ∷ []) = Unit
IsSorted (k ∷ j ∷ r) = (str_le k j ≡ true) × IsSorted (j ∷ r)

insert_sorted-IsSorted : (k : String) (l : List String) → IsSorted l → IsSorted (insert_sorted k l)
unfolding insert_sorted
insert_sorted-IsSorted k [] h = tt
insert_sorted-IsSorted k (j ∷ []) h = ground (arith, str_le_total k j)
insert_sorted-IsSorted k (j ∷ i ∷ r) h =
    ground (arith, str_le_total k j, str_le_total k i, insert_sorted-IsSorted k (i ∷ r))

-- Inserting two keys in either order gives the same list.
insert_sorted_comm :
    (k j : String) (l : List String)
    → insert_sorted k (insert_sorted j l) ≡ insert_sorted j (insert_sorted k l)
unfolding insert_sorted
insert_sorted_comm k j [] = ground (arith, str_le_antisymm k j, str_le_total k j)
insert_sorted_comm k j (i ∷ r) = ground (
  arith,
  insert_sorted_comm k j r,
  str_le_antisymm k j,
  str_le_total k j,
  str_le_total j k,
  str_le_total j i,
  str_le_total k i,
  str_le_trans k j i,
  str_le_trans j k i,
  str_le_trans k i j,
  str_le_trans j i k,
)

sort_strings-IsSorted : (l : List String) → IsSorted (sort_strings l)
unfolding sort_strings
sort_strings-IsSorted [] = tt
sort_strings-IsSorted (k ∷ r) = insert_sorted-IsSorted k (sort_strings r) (sort_strings-IsSorted r)

sort_strings-Permᴰ : {k l : List String} → Permᴰ k l → sort_strings k ≡ sort_strings l
unfolding sort_strings
sort_strings-Permᴰ Permᴰ.nil = refl
sort_strings-Permᴰ (Permᴰ.cons e p) = ap₂ insert_sorted e (sort_strings-Permᴰ p)
sort_strings-Permᴰ (Permᴰ.swap {a = x} {b = y} {l = r} e e') =
    insert_sorted_comm x y (sort_strings r)
    ∙ ap₂ (λ u v. insert_sorted u (insert_sorted v (sort_strings r))) e' e
sort_strings-Permᴰ (Permᴰ.trans p q) = sort_strings-Permᴰ p ∙ sort_strings-Permᴰ q

map-with_values :
    (tags : Dict String) (l : List String)
    → map (λ (p : String × String). p.0) (with_values tags l) ≡ l
unfolding with_values
map-with_values tags [] = refl
map-with_values tags (k ∷ l) = rw (map-with_values tags l)

-- The keys of the sorted tags stand in the order of their texts.
pub sort_tags-IsSorted :
    (tags : Dict String) → IsSorted (map (λ (p : String × String). p.0) (sort_tags tags))
unfolding sort_tags
sort_tags-IsSorted tags =
    rw (map-with_values tags (sort_strings (keys tags))) (sort_strings-IsSorted (keys tags))

-- Two enumerations of one map: the same keys in some order, with the same values.
pub record SameMap (a b : Dict String) : Type 0 where
  pub same_keys : Permᴰ (keys a) (keys b)
  pub same_values : (k : String) → lookup k a ≡ lookup k b

with_values-ext :
    (a b : Dict String)
    → ((k : String) → lookup k a ≡ lookup k b)
    → (l : List String) → with_values a l ≡ with_values b l
unfolding with_values lookup_or
with_values-ext a b h [] = refl
with_values-ext a b h (k ∷ l) = ground (arith, h k, with_values-ext a b h l)

-- The result is the same in whatever order Go visits the map.
pub sort_tags-SameMap : {a b : Dict String} → SameMap a b → sort_tags a ≡ sort_tags b
sort_tags-SameMap {a} {b} h =
    unfold sort_tags in
    ap (with_values a) (sort_strings-Permᴰ h.same_keys)
    ∙ with_values-ext a b h.same_values (sort_strings (keys b))
