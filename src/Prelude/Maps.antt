-- ===== src/Prelude/Maps.antt =====
-- Go's maps with string keys, as association lists: `lookup` is `m[k]` with its `ok`, `insert` is
-- `m[k] = v`, `erase` is `delete(m, k)`. Ranging over a map visits the entries in the list's order;
-- Go leaves that order open, so a statement that depends on it is made for every order.
use Prim.Native.String.{String}
use mathlib.Core.Path.{◌≡◌, refl, ap, ◌∙◌}
use mathlib.Core.Option.{Option, none, some}
use mathlib.Core.List.{List, [], ◌∷◌, ◌++◌}
use native.Mathlib.Omega.{arith}
use text.Mathlib.Text.{◌==◌}
use text.Mathlib.TextEquality.{eq_iff}
use dcos_metrics.Prelude.Tests.{if◌then◌else◌, Bool-cases}
use dcos_metrics.Prelude.Lists.{Elem, All}
use mathlib.Core.Logic.{inl, inr}
use mathlib.Core.Path.{sym}

abbrev pub Dict {ℓ} : Type ℓ → Type ℓ
Dict V = List (String × V)

module _ {ℓ} {V : Type ℓ} where
  unfoldable pub lookup : String → Dict V → Option V
  lookup k [] = none
  lookup k ((j, v) ∷ m) = let rest = lookup k m in if j == k then some v else rest

  unfoldable pub insert : String → V → Dict V → Dict V
  insert k v [] = (k, v) ∷ []
  insert k v ((j, w) ∷ m) = let rest = insert k v m in if j == k then (k, v) ∷ m else (j, w) ∷ rest

  unfoldable pub erase : String → Dict V → Dict V
  erase k [] = []
  erase k ((j, v) ∷ m) = let rest = erase k m in if j == k then rest else (j, v) ∷ rest

  -- The entries of the second map are written over those of the first.
  unfoldable pub insert_all : Dict V → Dict V → Dict V
  insert_all m [] = m
  insert_all m ((k, v) ∷ r) = insert_all (insert k v m) r

  -- `m[k]` without `ok`: the zero value on a missing key.
  unfoldable pub lookup_or : V → String → Dict V → V
  lookup_or d k m = elim (lookup k m) [ none ↦ d | some v ↦ v ]

  unfoldable pub keys : Dict V → List String
  keys [] = []
  keys ((k, v) ∷ m) = k ∷ keys m

  pub lookup-insert :
      (written asked : String) (value : V) (dict : Dict V)
      → lookup asked (insert written value dict)
        ≡ (if written == asked then some value else lookup asked dict)
  unfolding insert lookup
  lookup-insert written asked value [] = refl
  lookup-insert written asked value ((there, old) ∷ dict) = ground (
    lookup-insert written asked value dict,
    eq_iff there asked,
    eq_iff there written,
    eq_iff written asked,
    arith,
  )

  pub lookup-erase :
      (k j : String) (m : Dict V) → lookup j (erase k m) ≡ (if k == j then none else lookup j m)
  unfolding lookup erase
  lookup-erase k j [] = ground arith
  lookup-erase k j ((i, w) ∷ m) =
      ground (arith, eq_iff k j, eq_iff i k, eq_iff i j, lookup-erase k j m)

module _ {ℓ} {V : Type ℓ} where
  -- The last value that a sequence of writes gives a key, or else what was there before.
  abbrev pub latest : String → Dict V → Option V → Option V
  latest k [] before = before
  latest k ((j, v) ∷ l) before = latest k l (if j == k then some v else before)

  pub latest-append :
      (k : String) (l r : Dict V) (before : Option V)
      → latest k (l ++ r) before ≡ latest k r (latest k l before)
  latest-append k [] r before = refl
  latest-append k ((j, v) ∷ l) r before = latest-append k l r (if j == k then some v else before)

  pub lookup-insert_all :
      (k : String) (m l : Dict V) → lookup k (insert_all m l) ≡ latest k l (lookup k m)
  unfolding insert_all
  lookup-insert_all k m [] = refl
  lookup-insert_all k m ((j, v) ∷ l) =
      lookup-insert_all k (insert j v m) l ∙ ap (latest k l) (lookup-insert j k v m)

  pub insert_all-append : (m l r : Dict V) → insert_all m (l ++ r) ≡ insert_all (insert_all m l) r
  unfolding insert_all
  insert_all-append m [] r = refl
  insert_all-append m ((j, v) ∷ l) r = insert_all-append (insert j v m) l r

module _ {ℓ} {V : Type ℓ} where
  pub insert-same : (k : String) (v : V) (m : Dict V) → lookup k m ≡ some v → insert k v m ≡ m
  unfolding insert lookup
  insert-same k v [] h = cc
  insert-same k v ((j, w) ∷ m) h = ground (arith, eq_iff j k, insert-same k v m)

  -- Writing the entries that a map has already changes nothing.
  pub insert_all-same :
      (m l : Dict V) → All (λ e. lookup (e.0) m ≡ some (e.1)) l → insert_all m l ≡ m
  unfolding insert_all
  insert_all-same m [] h = refl
  insert_all-same m ((k, v) ∷ l) (p, h) =
      ap (λ n. insert_all n l) (insert-same k v m p) ∙ insert_all-same m l h

-- A key that is looked up with success is among the keys.
pub Elem-keys {ℓ} :
    {V : Type ℓ} (key : String) (m : Dict V) (v : V) → lookup key m ≡ some v → Elem key (keys m)
unfolding keys lookup
Elem-keys key [] v h = cc
Elem-keys key ((k, w) ∷ m) v h = elim (Bool-cases (k == key)) [
  | inl same ↦ inl (sym ((eq_iff k key).0 same))
  | inr other ↦ inr (Elem-keys key m v (ground (arith, other)))
]
