-- ===== src/Producers/Http/Router/Exact.antt =====
-- The server answers the paths of its pages and no others.
use mathlib.Core.Path.{subst}
use dcos_metrics.Producers.Http.Router.{
  IsClean, resolve, serve, Mux, match_route, handler_of, Request, fits,
}
use dcos_metrics.Prelude.{
  String, ◌≡◌, refl, sym, ◌∙◌, ◌⊎◌, inl, inr, true, Option, none, some, List, [], ◌∷◌, ◌++◌, arith,
  ◌==◌, eq_iff, Dict, All, lookup, ap₂, Elem, ◌↔◌, ap, Bool-cases,
}
use dcos_metrics.Producers.Store.{StoreApi}
use dcos_metrics.Producers.Http.Router.Laws.{
  Page, IsPage, Has, is_shared, path_of, container_page, page_writes, container_app_page, not_empty,
  match_route-fits, new_router-table, container_app_metric_page, ping_page, node_page, debug_page,
  containers_page,
}
use dcos_metrics.Producers.Http.{new_router, Route, Write, agent_routes, routes}
use dcos_metrics.Producers.Http.Router.Pages.{serve_sound}

module _ (mux : Mux) (api : StoreApi) (now : String) where
  -- The package's own match gives what the documented one gives.
  fits_mux : Mux
  fits_mux = record { match_path = fits; match_path-fits = λ r path i clean. refl }

  resolve-fits :
      (l : List Route) (req : Request)
      → All (λ (r : Route). Elem r (agent_routes ++ routes)) l
      → IsClean req.path
      → resolve mux l req ≡ resolve fits_mux l req
  unfolding resolve
  resolve-fits [] req h clean = refl
  resolve-fits (r ∷ l) req (h, hs) clean =
      ap₂ (λ m rest. elim m [ none ↦ rest | some vars ↦ some (r.name, vars) ])
        (match_route-fits mux r req h clean ∙ sym (match_route-fits fits_mux r req h clean))
        (resolve-fits l req hs clean)

  -- The route of each page, and the variables that its ids fill.
  page_route : Page → String × Dict String
  page_route ping_page = ("ping", [])
  page_route node_page = ("node", [])
  page_route debug_page = ("debug", [])
  page_route containers_page = ("containers", [])
  page_route (container_page id) = ("container", ("id", id) ∷ [])
  page_route (container_app_page id) = ("containers_app", ("id", id) ∷ [])
  page_route (container_app_metric_page id m) =
      ("containers_app_metric", ("id", id) ∷ ("metric-id", m) ∷ [])

  resolve-agent :
      (page : Page)
      → IsPage page
      → resolve fits_mux (agent_routes ++ routes) (record { method = "GET"; path = path_of page })
        ≡ some (page_route page)
  unfolding resolve match_route fits_mux page_route
  resolve-agent ping_page h = refl
  resolve-agent node_page h = refl
  resolve-agent debug_page h = refl
  resolve-agent containers_page h = refl
  resolve-agent (container_page id) h = rw (not_empty id h, resolve) refl
  resolve-agent (container_app_page id) h = ground (arith, not_empty id h)
  resolve-agent (container_app_metric_page id m) (h, k) =
      ground (arith, not_empty id h, not_empty m k)

  resolve-shared :
      (page : Page)
      → is_shared page ≡ true
      → resolve fits_mux routes (record { method = "GET"; path = path_of page })
        ≡ some (page_route page)
  unfolding resolve match_route fits_mux page_route
  resolve-shared ping_page h = refl
  resolve-shared node_page h = refl
  resolve-shared debug_page h = refl
  resolve-shared containers_page h = absurd (cc)
  resolve-shared (container_page id) h = absurd (cc)
  resolve-shared (container_app_page id) h = absurd (cc)
  resolve-shared (container_app_metric_page id m) h = absurd (cc)

  handler_of-page :
      (page : Page) (s : StoreApi.Store api)
      → handler_of mux api now (page_route page).0 (page_route page).1 s
        ≡ page_writes api now page s
  unfolding handler_of page_route lookup
  handler_of-page ping_page s = refl
  handler_of-page node_page s = refl
  handler_of-page debug_page s = refl
  handler_of-page containers_page s = refl
  handler_of-page (container_page id) s = refl
  handler_of-page (container_app_page id) s = refl
  handler_of-page (container_app_metric_page id m) s = refl

  same_request :
      (req : Request) (path : List String)
      → req.method ≡ "GET"
      → req.path ≡ path
      → req ≡ record { method = "GET"; path = path }
  same_request req path m p = ap₂ (λ x y. record { method = x; path = y }) m p

  resolve-page :
      (dcos_role : String) (page : Page)
      → IsPage page
      → (is_shared page ≡ true) ⊎ (dcos_role ≡ "agent")
      → IsClean (path_of page)
      → resolve mux (new_router dcos_role) (record { method = "GET"; path = path_of page })
        ≡ some (page_route page)
  unfolding new_router
  resolve-page dcos_role page h allowed clean =
      resolve-fits (new_router dcos_role) _ (new_router-table mux dcos_role) clean
      ∙ elim (Bool-cases (dcos_role == "agent")) [
        | inl e ↦ rw e (resolve-agent page h)
        | inr e ↦ elim allowed [
          | inl shared ↦ rw e (resolve-shared page shared)
          | inr agent ↦ absurd (ground (arith, e, eq_iff dcos_role "agent", agent))
        ]
      ]

  serve_complete :
      (dcos_role : String) (page : Page) (s : StoreApi.Store api)
      → Has dcos_role page
      → IsClean (path_of page)
      → serve mux api dcos_role now (record { method = "GET"; path = path_of page }) s
        ≡ some (page_writes api now page s)
  unfolding serve
  serve_complete dcos_role page s (h, allowed) clean =
      let found = resolve-page dcos_role page h allowed clean in
      ap
        (λ o. elim o as (λ x. Option (List Write)) [
          | none ↦ none
          | some x ↦ some (handler_of mux api now x.0 x.1 s)
        ])
        found
      ∙ ap (λ w. some w) (handler_of-page page s)

  -- For requests whose path is in canonical form: the server of a node's role answers exactly the GET requests for the paths of the role's pages, each by the handler of that page with the ids that the path names, and leaves every other request to the router's 404.
  pub serve_iff :
      (dcos_role : String) (req : Request) (s : StoreApi.Store api) (writes : List Write)
      → IsClean req.path
      → (serve mux api dcos_role now req s ≡ some writes) ↔ (
          (page : Page) × Has dcos_role page
          × (req.method ≡ "GET")
          × (req.path ≡ path_of page)
          × (writes ≡ page_writes api now page s))
  serve_iff dcos_role req s writes clean = (
    (λ e. serve_sound mux api now dcos_role req s writes clean e),
    λ (page, has, m, p, w).
        ap (λ r. serve mux api dcos_role now r s) (same_request req (path_of page) m p)
        ∙ serve_complete dcos_role page s has (subst IsClean p clean)
        ∙ ap (λ x. some x) (sym w),
  )
