-- ===== src/Tests/Router.antt =====
-- Examples of the router of the HTTP producer.
use dcos_metrics.Producers.Http.Router.{
  serve, resolve, Mux, Request, fits, match_route, has_slash, IsClean, IsSegment,
}
use dcos_metrics.Prelude.{
  ◌≡◌, refl, none, some, List, [], ◌∷◌, ◌↔◌, String, ◌≢◌, false, arith, ◌==◌, eq_iff,
}
use dcos_metrics.Producers.Http.{new_router, Write, container_app_handler}
use dcos_metrics.Producers.Store.Lists.{list_store}
use dcos_metrics.Tests.Values.{only_web}
use dcos_metrics.Producers.Http.Router.Laws.{Page, Has, path_of, page_writes}
use dcos_metrics.Producers.Http.Router.Exact.{serve_iff}

abbrev mux : Mux
mux = record { match_path = fits; match_path-fits = λ r path i clean. refl }

abbrev app_request : Request
app_request = record { method = "GET"; path = "/v0" ∷ "containers" ∷ "web" ∷ "app" ∷ [] }

abbrev writes : List Write
writes = container_app_handler list_store "web" only_web

literal : (s t : String) → (s == t) ≡ false → s ≢ t
literal s t e h = ground (arith, eq_iff s t, e, h)

segment :
    (s : String)
    → (s == "") ≡ false
    → (s == ".") ≡ false
    → (s == "..") ≡ false
    → has_slash s ≡ false
    → IsSegment s
segment s a b c d = (literal s "" a, literal s "." b, literal s ".." c, d)

clean : IsClean app_request.path
unfolding has_slash
clean = (
  ("v0", refl, segment "v0" refl refl refl refl),
  (
    segment "containers" refl refl refl refl,
    (segment "web" refl refl refl refl, (segment "app" refl refl refl refl, tt)),
  ),
)

serve_iff_example : (serve mux list_store "agent" "now" app_request only_web ≡ some writes) ↔ (
    (page : Page) × Has "agent" page
    × (app_request.method ≡ "GET")
    × (app_request.path ≡ path_of page)
    × (writes ≡ page_writes list_store "now" page only_web))
serve_iff_example = serve_iff mux list_store "now" "agent" app_request only_web writes clean

not_on_a_master : serve mux list_store "master" "now" app_request only_web ≡ none
unfolding serve new_router resolve match_route
not_on_a_master = refl
