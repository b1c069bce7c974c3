-- ===== src/Producers/Http/Router/Pages.antt =====
-- The pages that the server answers, by their paths.
use dcos_metrics.Producers.Http.Router.{
  IsClean, resolve, serve, Mux, handler_of, variable, fits, Request,
}
use dcos_metrics.Prelude.{
  String, ◌≡◌, refl, sym, ap, ◌∙◌, ◌≢◌, ◌⊎◌, inl, inr, Bool, true, false, none, some, List, [], ◌∷◌,
  ◌++◌, arith, ◌==◌, eq_iff, if◌then◌else◌, Dict, Elem, lookup, Option-cases, Bool-cases,
  Elem-append_cases, Elem-append_right, Elem-All, Elem-append_left,
}
use dcos_metrics.Producers.Store.{StoreApi}
use dcos_metrics.Producers.Http.{
  Route, route, routes, agent_routes, container_app_handler, container_app_metric_handler,
  container_handler, Write, new_router,
}
use dcos_metrics.Producers.Http.Router.Laws.{
  Page, IsPage, path_of, page_writes, is_shared, literal-path, ping_page, end-path, container_page,
  containers_page, variable-path, node_page, container_app_page, container_app_metric_page,
  debug_page, Has, resolve_sound, new_router-table,
}
use mathlib.Core.Path.{subst}
use mathlib.Core.Option.{some-injective}

module _ (mux : Mux) (api : StoreApi) (now : String) where
  -- The page that a route and its variables stand for.
  abbrev IsFound : Bool → Route → List String → Dict String → Type 0
  IsFound shared r path vars =
      (page : Page) × IsPage page
      × (path ≡ path_of page)
      × ((s : StoreApi.Store api)
          → handler_of mux api now r.name vars s ≡ page_writes api now page s)
      × (shared ≡ true → is_shared page ≡ true)

  -- A path of two literal segments.
  two-literals :
      (t : String) (path : List String) (vars : Dict String)
      → variable t ≡ none
      → fits ("/v0" ∷ t ∷ []) path ≡ some vars
      → path ≡ "/v0" ∷ t ∷ []
  two-literals t path vars n e =
      let (ps, f, g) = literal-path "/v0" (t ∷ []) path vars refl e in
      let (qs, f', g') = literal-path t [] ps vars n g in
      let (f'', vs) = end-path qs vars g' in f ∙ ap (λ l. "/v0" ∷ l) (f' ∙ ap (λ l. t ∷ l) f'')

  -- The id behind `/v0/containers`, and the rest of the path.
  below-containers :
      (ts path : List String) (vars : Dict String)
      → fits ("/v0" ∷ "containers" ∷ "{id}" ∷ ts) path ≡ some vars
      → (id : String) × (rest : List String) × (vs : Dict String) × (path
          ≡ "/v0" ∷ "containers" ∷ id ∷ rest)
        × (id ≢ "")
        × (fits ts rest ≡ some vs)
        × (vars ≡ ("id", id) ∷ vs)
  below-containers ts path vars e =
      let (ps, f, g) = literal-path "/v0" ("containers" ∷ "{id}" ∷ ts) path vars refl e in
      let (qs, f', g') = literal-path "containers" ("{id}" ∷ ts) ps vars refl g in
      let (id, rest, vs, f'', nonempty, g'', v) = variable-path "{id}" "id" ts qs vars refl g' in
      (
        id,
        rest,
        vs,
        f ∙ ap (λ l. "/v0" ∷ l) (f' ∙ ap (λ l. "containers" ∷ l) f''),
        nonempty,
        g'',
        v,
      )

  -- The handlers that read the variables of a route.
  handler_of-container :
      (id : String) (vs : Dict String) (s : StoreApi.Store api)
      → handler_of mux api now "container" (("id", id) ∷ vs) s ≡ container_handler api id s
  unfolding handler_of lookup
  handler_of-container id vs s = refl

  handler_of-app :
      (id : String) (vs : Dict String) (s : StoreApi.Store api)
      → handler_of mux api now "containers_app" (("id", id) ∷ vs) s ≡ container_app_handler api id s
  unfolding handler_of lookup
  handler_of-app id vs s = refl

  handler_of-metric :
      (id m : String) (vs : Dict String) (s : StoreApi.Store api)
      → handler_of mux api now "containers_app_metric" (("id", id) ∷ ("metric-id", m) ∷ vs) s
        ≡ container_app_metric_handler api id m s
  unfolding handler_of lookup
  handler_of-metric id m vs s = refl

  IsFound-container :
      (path : List String) (vars : Dict String)
      → fits ("/v0" ∷ "containers" ∷ "{id}" ∷ []) path ≡ some vars
      → IsFound false (route "container" ("/v0" ∷ "containers" ∷ "{id}" ∷ [])) path vars
  IsFound-container path vars e =
      let (id, rest, vs, f, nonempty, g, v) = below-containers [] path vars e in
      let (f', v') = end-path rest vs g in
      (
        container_page id,
        nonempty,
        f ∙ ap (λ l. "/v0" ∷ "containers" ∷ id ∷ l) f',
        (λ s. ap (λ x. handler_of mux api now "container" x s) v ∙ handler_of-container id vs s),
        (λ h. absurd (cc)),
      )

  IsFound-app :
      (path : List String) (vars : Dict String)
      → fits ("/v0" ∷ "containers" ∷ "{id}" ∷ "app" ∷ []) path ≡ some vars
      → IsFound false
          (route "containers_app" ("/v0" ∷ "containers" ∷ "{id}" ∷ "app" ∷ []))
          path
          vars
  IsFound-app path vars e =
      let (id, rest, vs, f, nonempty, g, v) = below-containers ("app" ∷ []) path vars e in
      let (rest', f', g') = literal-path "app" [] rest vs refl g in
      let (f'', v') = end-path rest' vs g' in
      (
        container_app_page id,
        nonempty,
        f ∙ ap (λ l. "/v0" ∷ "containers" ∷ id ∷ l) (f' ∙ ap (λ l. "app" ∷ l) f''),
        (λ s. ap (λ x. handler_of mux api now "containers_app" x s) v ∙ handler_of-app id vs s),
        (λ h. absurd (cc)),
      )

  IsFound-metric :
      (path : List String) (vars : Dict String)
      → fits ("/v0" ∷ "containers" ∷ "{id}" ∷ "app" ∷ "{metric-id}" ∷ []) path ≡ some vars
      → IsFound false
          (route "containers_app_metric"
            ("/v0" ∷ "containers" ∷ "{id}" ∷ "app" ∷ "{metric-id}" ∷ []))
          path
          vars
  IsFound-metric path vars e =
      let (id, rest, vs, f, nonempty, g, v) =
        below-containers ("app" ∷ "{metric-id}" ∷ []) path vars e in
      let (rest', f', g') = literal-path "app" ("{metric-id}" ∷ []) rest vs refl g in
      let (m, rest'', ws, f'', nonempty', g'', w) =
        variable-path "{metric-id}" "metric-id" [] rest' vs refl g' in
      let (f3, w') = end-path rest'' ws g'' in
      let all_vars : vars ≡ ("id", id) ∷ ("metric-id", m) ∷ ws = v ∙ ap (λ l. ("id", id) ∷ l) w in
      (
        container_app_metric_page id m,
        (nonempty, nonempty'),
        f
            ∙ ap (λ l. "/v0" ∷ "containers" ∷ id ∷ l)
                (f' ∙ ap (λ l. "app" ∷ l) (f'' ∙ ap (λ l. m ∷ l) f3)),
        (λ s.
            ap (λ x. handler_of mux api now "containers_app_metric" x s) all_vars
            ∙ handler_of-metric id m ws s),
        (λ h. absurd (cc)),
      )

  -- What is found at a route holds at a route that is the same.
  at-route :
      (b : Bool) (q r : Route) (path : List String) (vars : Dict String)
      → r ≡ q
      → (fits q.path path ≡ some vars → IsFound b q path vars)
      → fits r.path path ≡ some vars
      → IsFound b r path vars
  at-route b q r path vars same k =
      subst (λ x. fits x.path path ≡ some vars → IsFound b x path vars) (sym same) k

  shared-IsFound :
      (r : Route) (path : List String) (vars : Dict String)
      → Elem r routes
      → fits r.path path ≡ some vars
      → IsFound true r path vars
  unfolding handler_of
  shared-IsFound r path vars (inl i) =
      at-route true (route "ping" ("/v0" ∷ "ping" ∷ [])) r path vars i
        (λ e. (ping_page, tt, two-literals "ping" path vars refl e, (λ s. refl), (λ h. refl)))
  shared-IsFound r path vars (inr (inl i)) =
      at-route true (route "node" ("/v0" ∷ "node" ∷ [])) r path vars i
        (λ e. (node_page, tt, two-literals "node" path vars refl e, (λ s. refl), (λ h. refl)))
  shared-IsFound r path vars (inr (inr (inl i))) =
      at-route true (route "debug" ("/v0" ∷ "debug" ∷ [])) r path vars i
        (λ e. (debug_page, tt, two-literals "debug" path vars refl e, (λ s. refl), (λ h. refl)))
  shared-IsFound r path vars (inr (inr (inr i))) = absurd i

  agent-IsFound :
      (r : Route) (path : List String) (vars : Dict String)
      → Elem r agent_routes
      → fits r.path path ≡ some vars
      → IsFound false r path vars
  unfolding handler_of
  agent-IsFound r path vars (inl i) =
      at-route false (route "containers" ("/v0" ∷ "containers" ∷ [])) r path vars i (λ e. (
        containers_page,
        tt,
        two-literals "containers" path vars refl e,
        (λ s. refl),
        (λ h. absurd (cc)),
      ))
  agent-IsFound r path vars (inr (inl i)) =
      at-route false (route "container" ("/v0" ∷ "containers" ∷ "{id}" ∷ [])) r path vars i
        (IsFound-container path vars)
  agent-IsFound r path vars (inr (inr (inl i))) =
      at-route false (route "containers_app" ("/v0" ∷ "containers" ∷ "{id}" ∷ "app" ∷ [])) r path
        vars i (IsFound-app path vars)
  agent-IsFound r path vars (inr (inr (inr (inl i)))) =
      at-route false
        (route "containers_app_metric" ("/v0" ∷ "containers" ∷ "{id}" ∷ "app" ∷ "{metric-id}" ∷ []))
        r path vars i (IsFound-metric path vars)
  agent-IsFound r path vars (inr (inr (inr (inr i)))) = absurd i

  -- Every route of the table is for GET.
  table-method : (r : Route) → Elem r (agent_routes ++ routes) → r.method ≡ "GET"
  table-method r i =
      Elem-All (λ (x : Route). x.method ≡ "GET") (agent_routes ++ routes) r i
        (refl, (refl, (refl, (refl, (refl, (refl, (refl, tt)))))))

  -- The routes of a role are the shared ones, and for an agent those of the containers.
  new_router-cases :
      (dcos_role : String) (r : Route)
      → Elem r (new_router dcos_role)
      → Elem r routes ⊎ (Elem r agent_routes × (dcos_role ≡ "agent"))
  unfolding new_router
  new_router-cases dcos_role r i = elim (Bool-cases (dcos_role == "agent")) [
    | inl e ↦
        elim (Elem-append_cases r agent_routes routes
          (subst (λ b. Elem r (if b then agent_routes ++ routes else routes)) e i)) [
            | inl j ↦ inr (j, (eq_iff dcos_role "agent").0 e)
            | inr j ↦ inl j
          ]
    | inr e ↦ inl (subst (λ b. Elem r (if b then agent_routes ++ routes else routes)) e i)
  ]

  route-page :
      (dcos_role : String) (r : Route) (path : List String) (vars : Dict String)
      → Elem r (new_router dcos_role)
      → fits r.path path ≡ some vars
      → (page : Page) × Has dcos_role page
        × (r.method ≡ "GET")
        × (path ≡ path_of page)
        × ((s : StoreApi.Store api)
            → handler_of mux api now r.name vars s ≡ page_writes api now page s)
  route-page dcos_role r path vars i fit = elim (new_router-cases dcos_role r i) [
    | inl j ↦
        let (page, h, p, w, shared) = shared-IsFound r path vars j fit in
        (
          page,
          (h, inl (shared refl)),
          table-method r (Elem-append_right r agent_routes routes j),
          p,
          w,
        )
    | inr (j, agent) ↦
        let (page, h, p, w, shared) = agent-IsFound r path vars j fit in
        (page, (h, inr agent), table-method r (Elem-append_left r agent_routes routes j), p, w)
  ]

  -- An answer of the server to a path in canonical form is that of a page of its role, at the path of the page.
  pub serve_sound :
      (dcos_role : String) (req : Request) (s : StoreApi.Store api) (writes : List Write)
      → IsClean req.path
      → serve mux api dcos_role now req s ≡ some writes
      → (page : Page) × Has dcos_role page
        × (req.method ≡ "GET")
        × (req.path ≡ path_of page)
        × (writes ≡ page_writes api now page s)
  unfolding serve
  serve_sound dcos_role req s writes clean e =
      elim (Option-cases (resolve mux (new_router dcos_role) req)) [
        | inl n ↦ absurd (ground (arith, n, e))
        | inr ((name, vars), f) ↦
            let (r, i, named, method, fit) =
              resolve_sound mux (new_router dcos_role) req name vars
                (new_router-table mux dcos_role) clean f in
            let (page, has, get, p, w) = route-page dcos_role r req.path vars i fit in
            let answered : some (handler_of mux api now name vars s) ≡ some writes =
              ground (arith, f, e) in
            (
              page,
              has,
              sym method ∙ get,
              p,
              sym (some-injective _ _ answered)
                  ∙ ap (λ n. handler_of mux api now n vars s) (sym named)
                  ∙ w s,
            )
      ]
