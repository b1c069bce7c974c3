-- ===== src/Producers/Store.antt =====
-- What the producers use of the vendored package github.com/dcos/dcos-go/store: the operations are
-- a parameter of the model, with the documented behaviour as laws.
pub mod Lists
use dcos_metrics.Prelude.{
  String, ◌≡◌, Bool, Option, none, some, List, [], ◌∷◌, Dict, lookup, contains, any, ◌==◌,
  if◌then◌else◌,
}
use dcos_metrics.Producers.{MetricsMessage}

-- The store holds `interface{}`; `foreign` is any object that is no `MetricsMessage`.
pub data Object : Type 0 where
  message : MetricsMessage → Object
  foreign : Object

-- A key matches the expression `(p|q|…).*` over quoted texts when it has one of them in it: the
-- match of Go's `regexp` is not anchored.
unfoldable pub matches : List String → String → Bool
matches alternatives key = any (λ p. contains p key) alternatives

-- A key is there, or not, at most once in what the store returns.
abbrev pub HasUniqueKeys : Dict Object → Type 0
HasUniqueKeys [] = Unit
HasUniqueKeys ((k, o) ∷ m) = (lookup k m ≡ none) × HasUniqueKeys m

pub record StoreApi : Type 1 where
  pub Store : Type 0
  pub new : Store
  pub get : Store → String → Option Object
  pub set : Store → String → Object → Store
  pub delete : Store → String → Store
  -- `Objects()`, in the order in which the caller ranges over it.
  pub objects : Store → Dict Object
  -- `GetByRegex`, for a quoted text or a choice of such; these always compile.
  pub get_by_regex : Store → List String → Dict Object
  pub get-new : (k : String) → get new k ≡ none
  pub get-set :
      (s : Store) (k j : String) (o : Object)
      → get (set s k o) j ≡ (if k == j then some o else get s j)
  pub get-delete :
      (s : Store) (k j : String) → get (delete s k) j ≡ (if k == j then none else get s j)
  pub lookup-objects : (s : Store) (k : String) → lookup k (objects s) ≡ get s k
  pub objects-HasUniqueKeys : (s : Store) → HasUniqueKeys (objects s)
  pub lookup-get_by_regex :
      (s : Store) (alternatives : List String) (k : String)
      → lookup k (get_by_regex s alternatives) ≡ (if matches alternatives k then get s k else none)
  pub get_by_regex-HasUniqueKeys :
      (s : Store) (alternatives : List String) → HasUniqueKeys (get_by_regex s alternatives)
