-- ===== src/Producers/Http/Router/Laws.antt =====
-- Which handler each path reaches.
use dcos_metrics.Prelude.{
  String, ◌≡◌, refl, sym, ap, ◌∙◌, ◌≢◌, ◌⊎◌, inl, inr, Bool, true, false, Option, none, some, List,
  [], ◌∷◌, ◌++◌, arith, ◌==◌, eq_iff, if◌then◌else◌, Dict, Elem, All, Option-cases, ◌>>=◌,
  >>=-eq-some, Bool-cases, All-of_Elem, Elem-append_right,
}
use dcos_metrics.Producers.Http.Router.{IsClean, Mux, match_route, variable, fits, Request}
use dcos_metrics.Producers.Store.{StoreApi}
use dcos_metrics.Producers.Http.{
  Write, ping_handler, Route, node_handler, debug_handler, agent_routes, containers_handler,
  container_handler, routes, container_app_handler, container_app_metric_handler, new_router,
}
use dcos_metrics.Producers.Http.Router.{resolve}
use mathlib.Core.Option.{some-injective}

-- The pages of the API, as the paths name them.
pub data Page : Type 0 where
  ping_page node_page debug_page containers_page : Page
  container_page container_app_page : String → Page
  container_app_metric_page : String → String → Page

abbrev pub path_of : Page → List String
path_of ping_page = "/v0" ∷ "ping" ∷ []
path_of node_page = "/v0" ∷ "node" ∷ []
path_of debug_page = "/v0" ∷ "debug" ∷ []
path_of containers_page = "/v0" ∷ "containers" ∷ []
path_of (container_page id) = "/v0" ∷ "containers" ∷ id ∷ []
path_of (container_app_page id) = "/v0" ∷ "containers" ∷ id ∷ "app" ∷ []
path_of (container_app_metric_page id metric_id) =
    "/v0" ∷ "containers" ∷ id ∷ "app" ∷ metric_id ∷ []

-- The pages with no empty id, and of them those that a role has.
abbrev pub IsPage : Page → Type 0
IsPage (container_page id) = id ≢ ""
IsPage (container_app_page id) = id ≢ ""
IsPage (container_app_metric_page id metric_id) = (id ≢ "") × (metric_id ≢ "")
IsPage _ = Unit

abbrev pub is_shared : Page → Bool
is_shared ping_page = true
is_shared node_page = true
is_shared debug_page = true
is_shared _ = false

abbrev pub Has : String → Page → Type 0
Has dcos_role page = IsPage page × ((is_shared page ≡ true) ⊎ (dcos_role ≡ "agent"))

module _ (api : StoreApi) (now : String) where
  abbrev pub page_writes : Page → StoreApi.Store api → List Write
  page_writes ping_page s = ping_handler now
  page_writes node_page s = node_handler api s
  page_writes debug_page s = debug_handler api s
  page_writes containers_page s = containers_handler api s
  page_writes (container_page id) s = container_handler api id s
  page_writes (container_app_page id) s = container_app_handler api id s
  page_writes (container_app_metric_page id metric_id) s =
      container_app_metric_handler api id metric_id s

pub not_empty : (id : String) → id ≢ "" → (id == "") ≡ false
not_empty id h = ground (arith, eq_iff id "", h)

fits-literal :
    (t p : String) (ts ps : List String) (vars : Dict String)
    → variable t ≡ none
    → fits (t ∷ ts) (p ∷ ps) ≡ some vars
    → (t ≡ p) × (fits ts ps ≡ some vars)
fits-literal t p ts ps vars n e = (ground (arith, eq_iff t p, n, e), ground (arith, n, e))

fits-variable :
    (t p v : String) (ts ps : List String) (vars : Dict String)
    → variable t ≡ some v
    → fits (t ∷ ts) (p ∷ ps) ≡ some vars
    → (p ≢ "") × (rest : Dict String) × (fits ts ps ≡ some rest) × (vars ≡ (v, p) ∷ rest)
fits-variable t p v ts ps vars n e =
    let nonempty : (p == "") ≡ false = ground (arith, n, e) in
    let same : (fits ts ps >>= λ rest. some ((v, p) ∷ rest)) ≡ some vars =
      ground (arith, n, e, nonempty) in
    let (rest, f, g) = >>=-eq-some (fits ts ps) (λ rest. some ((v, p) ∷ rest)) same in
    ((λ h. ground (arith, eq_iff p "", nonempty, h)), rest, f, sym (some-injective _ _ g))

-- The same of a whole path.
pub literal-path :
    (t : String) (ts path : List String) (vars : Dict String)
    → variable t ≡ none
    → fits (t ∷ ts) path ≡ some vars
    → (ps : List String) × (path ≡ t ∷ ps) × (fits ts ps ≡ some vars)
literal-path t ts [] vars n e = absurd (cc)
literal-path t ts (p ∷ ps) vars n e =
    let (same, f) = fits-literal t p ts ps vars n e in (ps, ap (λ x. x ∷ ps) (sym same), f)

pub variable-path :
    (t v : String) (ts path : List String) (vars : Dict String)
    → variable t ≡ some v
    → fits (t ∷ ts) path ≡ some vars
    → (p : String) × (ps : List String) × (rest : Dict String) × (path ≡ p ∷ ps)
      × (p ≢ "")
      × (fits ts ps ≡ some rest)
      × (vars ≡ (v, p) ∷ rest)
variable-path t v ts [] vars n e = absurd (cc)
variable-path t v ts (p ∷ ps) vars n e =
    let (nonempty, rest, f, g) = fits-variable t p v ts ps vars n e in
    (p, ps, rest, refl, nonempty, f, g)

pub end-path :
    (path : List String) (vars : Dict String) → fits [] path ≡ some vars → (path ≡ []) × (vars ≡ [])
end-path [] vars e = (refl, cc)
end-path (p ∷ ps) vars e = absurd (cc)

module _ (mux : Mux) where
  pub match_route-fits :
      (r : Route) (req : Request)
      → Elem r (agent_routes ++ routes)
      → IsClean req.path
      → match_route mux r req ≡ (if r.method == req.method then fits r.path req.path else none)
  unfolding match_route
  match_route-fits r req i clean = rw (Mux.match_path-fits mux r req.path i clean) refl

  -- A route that is found is one of the table that fits.
  pub resolve_sound :
      (l : List Route) (req : Request) (name : String) (vars : Dict String)
      → All (λ (r : Route). Elem r (agent_routes ++ routes)) l
      → IsClean req.path
      → resolve mux l req ≡ some (name, vars)
      → (r : Route) × Elem r l
        × (r.name ≡ name)
        × (r.method ≡ req.method)
        × (fits r.path req.path ≡ some vars)
  unfolding resolve
  resolve_sound [] req name vars h clean e = absurd (cc)
  resolve_sound (r ∷ l) req name vars (h, hs) clean e =
      elim (Option-cases (match_route mux r req)) [
        | inl n ↦
            let (q, i, n', m', f) = resolve_sound l req name vars hs clean (ground (arith, n, e)) in
            (q, inr i, n', m', f)
        | inr (vars', m) ↦
            let found : ◌≡◌ {A = Option (String × Dict String)} (some (r.name, vars'))
                (some (name, vars)) =
              ground (arith, m, e) in
            let here : ◌≡◌ {A = String × Dict String} (r.name, vars') (name, vars) =
              some-injective _ _ found in
            let fit : (if r.method == req.method then fits r.path req.path else none) ≡ some vars' =
              sym (match_route-fits r req h clean) ∙ m in
            let fit' : fits r.path req.path ≡ some vars' = ground (arith, fit) in
            (
              r,
              inl refl,
              ap (λ x. x.0) here,
              ground (arith, eq_iff r.method req.method, fit),
              fit' ∙ ap (λ x. some x.1) here,
            )
      ]

  -- Every route of the router stands in the table.
  pub new_router-table :
      (dcos_role : String)
      → All (λ (r : Route). Elem r (agent_routes ++ routes)) (new_router dcos_role)
  unfolding new_router
  new_router-table dcos_role = elim (Bool-cases (dcos_role == "agent")) [
    | inl e ↦ rw e (All-of_Elem (agent_routes ++ routes) (λ r i. i))
    | inr e ↦ rw e (All-of_Elem routes (λ r i. Elem-append_right r agent_routes routes i))
  ]
