-- ===== src/Producers/Store/Lists.antt =====
-- A concrete store that meets the laws of `StoreApi`: an association list.
use dcos_metrics.Prelude.{
  String, ◌≡◌, refl, Bool, none, List, [], ◌∷◌, Dict, lookup, insert, erase, lookup-insert,
  lookup-erase, eq_iff, arith, if◌then◌else◌,
}
use dcos_metrics.Producers.Store.{Object, HasUniqueKeys, matches, StoreApi}

-- Later entries of a key are dropped.
unfoldable pub normal : Dict Object → Dict Object
normal [] = []
normal ((k, o) ∷ m) = (k, o) ∷ erase k (normal m)

unfoldable pub restrict : (String → Bool) → Dict Object → Dict Object
restrict p [] = []
restrict p ((k, o) ∷ m) = let rest = restrict p m in if p k then (k, o) ∷ rest else rest

pub lookup-normal : (m : Dict Object) (k : String) → lookup k (normal m) ≡ lookup k m
unfolding normal lookup
lookup-normal [] k = refl
lookup-normal ((j, o) ∷ m) k = ground (arith, lookup-erase j k (normal m), lookup-normal m k)

lookup-restrict :
    (p : String → Bool) (m : Dict Object) (k : String)
    → lookup k (restrict p m) ≡ (if p k then lookup k m else none)
unfolding restrict lookup
lookup-restrict p [] k = ground arith
lookup-restrict p ((j, o) ∷ m) k = ground (arith, eq_iff j k, lookup-restrict p m k)

erase-HasUniqueKeys : (k : String) (m : Dict Object) → HasUniqueKeys m → HasUniqueKeys (erase k m)
unfolding erase
erase-HasUniqueKeys k [] h = tt
erase-HasUniqueKeys k ((j, o) ∷ m) h =
    ground (arith, lookup-erase k j m, erase-HasUniqueKeys k m h.1)

pub normal-HasUniqueKeys : (m : Dict Object) → HasUniqueKeys (normal m)
unfolding normal
normal-HasUniqueKeys [] = tt
normal-HasUniqueKeys ((k, o) ∷ m) = ground (
  arith,
  lookup-erase k k (normal m),
  eq_iff k k,
  erase-HasUniqueKeys k (normal m) (normal-HasUniqueKeys m),
)

pub restrict-HasUniqueKeys :
    (p : String → Bool) (m : Dict Object) → HasUniqueKeys m → HasUniqueKeys (restrict p m)
unfolding restrict
restrict-HasUniqueKeys p [] h = tt
restrict-HasUniqueKeys p ((j, o) ∷ m) h =
    ground (arith, lookup-restrict p m j, restrict-HasUniqueKeys p m h.1)

pub lookup-select :
    (m : Dict Object) (alternatives : List String) (k : String)
    → lookup k (restrict (matches alternatives) (normal m))
      ≡ (if matches alternatives k then lookup k m else none)
lookup-select m alternatives k =
    ground (arith, lookup-restrict (matches alternatives) (normal m) k, lookup-normal m k)

pub lookup-nil : (k : String) → lookup {V = Object} k [] ≡ none
unfolding lookup
lookup-nil k = refl

abbrev pub list_store : StoreApi
list_store = record {
  Store = Dict Object;
  new = [];
  get = λ s k. lookup k s;
  set = λ s k o. insert k o s;
  delete = λ s k. erase k s;
  objects = normal;
  get_by_regex = λ s alternatives. restrict (matches alternatives) (normal s);
  get-new = lookup-nil;
  get-set = λ s k j o. lookup-insert k j o s;
  get-delete = λ s k j. lookup-erase k j s;
  lookup-objects = lookup-normal;
  objects-HasUniqueKeys = normal-HasUniqueKeys;
  lookup-get_by_regex = lookup-select;
  get_by_regex-HasUniqueKeys = λ s alternatives.
      restrict-HasUniqueKeys (matches alternatives) (normal s) (normal-HasUniqueKeys s);
}
