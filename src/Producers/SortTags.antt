-- ===== src/Producers/SortTags.antt =====
-- util/producers/producers.go: tags as a slice of pairs, sorted by key.
pub mod Laws
use dcos_metrics.Prelude.{
  String, Bool, List, [], ◌∷◌, map, Dict, lookup_or, keys, str_le, if◌then◌else◌,
}

-- `sort.Strings`, by insertion: the order of the result does not depend on the algorithm.
unfoldable pub insert_sorted : String → List String → List String
insert_sorted k [] = k ∷ []
insert_sorted k (j ∷ r) = let rest = insert_sorted k r in if str_le k j then k ∷ j ∷ r else j ∷ rest

unfoldable pub sort_strings : List String → List String
sort_strings [] = []
sort_strings (k ∷ r) = insert_sorted k (sort_strings r)

unfoldable pub with_values : Dict String → List String → List (String × String)
with_values tags l = map {B = String × String} (λ k. (k, lookup_or "" k tags)) l

-- The keys are collected in the order of a range over the map, sorted, and looked up.
unfoldable pub sort_tags : Dict String → List (String × String)
unfolding insert_sorted sort_strings with_values
sort_tags tags = with_values tags (sort_strings (keys tags))
