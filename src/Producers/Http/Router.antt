-- ===== src/Producers/Http/Router.antt =====
-- producers/http/router.go: the table of routes in gorilla/mux, and which handler a request reaches.
pub mod Laws
pub mod Pages
pub mod Exact
use dcos_metrics.Prelude.{
  All, ◌<>◌, ℕ, zero, suc, ◌+◌, ◌-◌, ◌≤◌, ◌<◌, String, ◌≡◌, refl, sym, ap, ◌∙◌, ◌≢◌, ◌⊎◌, inl, inr,
  Bool, true, false, ◌&&◌, ◌||◌, not, Option, none, some, List, [], ◌∷◌, ◌++◌, arith, ◌==◌, eq_iff,
  if◌then◌else◌, Dict, eqb, ◌>>=◌, Elem, lookup,
}
use dcos_metrics.Producers.Store.{StoreApi}
use dcos_metrics.Producers.Http.{
  Route, Write, new_router, agent_routes, ping_handler, routes, node_handler, debug_handler,
  containers_handler, container_handler, container_app_handler, container_app_metric_handler,
}
use Prim.Native.Char.{code}

-- The name between the braces of a segment of a template, if it has them.
abbrev pub before_brace : String → String
before_brace String.[] = ""
before_brace (String.◌∷◌ c s) =
    let rest = before_brace s in if eqb (code c) b'}' then "" else String.◌∷◌ c rest

abbrev pub variable : String → Option String
variable String.[] = none
variable (String.◌∷◌ c s) = if eqb (code c) b'{' then some (before_brace s) else none

-- The documented match of a path with a template: a literal segment is met by itself, a variable by any segment that is not empty.
abbrev pub fits : List String → List String → Option (Dict String)
fits [] [] = some []
fits [] (p ∷ ps) = none
fits (t ∷ ts) [] = none
fits (t ∷ ts) (p ∷ ps) =
    let rest = fits ts ps in
    elim (variable t) [
      | none ↦ if t == p then rest else none
      | some v ↦ if p == "" then none else (rest >>= λ vars. some ((v, p) ∷ vars))
    ]

-- A segment of a path that the package leaves as it is: not empty, no dots alone, and no slash in it.
unfoldable pub has_slash : String → Bool
has_slash String.[] = false
has_slash (String.◌∷◌ c s) = eqb (code c) b'/' || has_slash s

abbrev pub IsSegment : String → Type 0
IsSegment s = (s ≢ "") × (s ≢ ".") × (s ≢ "..") × (has_slash s ≡ false)

-- A path in canonical form, as the segments between its slashes, the first of them with its slash. (Any other path is redirected to its canonical form before the match, or, for a slash at its end, by the route that it would match without it.)
abbrev pub IsClean : List String → Type 0
IsClean [] = ⊥
IsClean (p ∷ ps) = ((first : String) × (p ≡ "/" <> first) × IsSegment first) × All IsSegment ps

-- What the router uses of the package: the match of a route's path with a path in canonical form.
pub record Mux : Type 0 where
  pub match_path : List String → List String → Option (Dict String)
  pub match_path-fits :
      (r : Route) (path : List String)
      → Elem r (agent_routes ++ routes)
      → IsClean path
      → match_path r.path path ≡ fits r.path path

pub record Request : Type 0 where
  pub method : String
  pub path : List String

module _ (mux : Mux) where
  open mux use {match_path}

  unfoldable pub match_route : Route → Request → Option (Dict String)
  match_route r req = if r.method == req.method then match_path r.path req.path else none

  -- The first route that matches, with its variables.
  unfoldable pub resolve : List Route → Request → Option (String × Dict String)
  resolve [] req = none
  resolve (r ∷ rs) req =
      let rest = resolve rs req in
      elim (match_route r req) [ none ↦ rest | some vars ↦ some (r.name, vars) ]

  module _ (api : StoreApi) where
    open api use {Store}

    -- `mux.Vars(r)[key]`.
    abbrev pub var : String → Dict String → String
    var key vars = elim (lookup key vars) [ none ↦ "" | some v ↦ v ]

    -- The handler of a route, by the route's name.
    unfoldable pub handler_of : String → String → Dict String → Store → List Write
    handler_of now name vars s =
        if name == "ping"
        then ping_handler now
        else if name == "node"
        then node_handler api s
        else if name == "debug"
        then debug_handler api s
        else if name == "containers"
        then containers_handler api s
        else if name == "container"
        then container_handler api (var "id" vars) s
        else if name == "containers_app"
        then container_app_handler api (var "id" vars) s
        else container_app_metric_handler api (var "id" vars) (var "metric-id" vars) s

    -- A request to the server; `none` is the router's own answer that it has no such route.
    unfoldable pub serve : String → String → Request → Store → Option (List Write)
    serve dcos_role now req s = elim (resolve (new_router dcos_role) req) [
      | none ↦ none
      | some (name, vars) ↦ some (handler_of now name vars s)
    ]
