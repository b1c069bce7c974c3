-- ===== src/Producers/Http/Serving.antt =====
-- producers/http/http.go: `New`, and where `Run` listens.
use dcos_metrics.Prelude.{ℕ, String, Option, none, some, List, [], ◌∷◌, ◌<>◌}
use dcos_metrics.Prelude.Int.{ℤ, pos}
use dcos_metrics.Service.{Result, ok, or_failed, ◌>>>◌}
use dcos_metrics.Producers.Store.{StoreApi}
use dcos_metrics.Producers.Http.Router.{Mux, Request, serve}
use dcos_metrics.Producers.Http.{Write}

-- `Config`. A listener stands for itself; the TCP address is its own two fields.
pub record Config (Listener : Type 0) : Type 0 where
  pub port : ℕ
  pub ip : String
  pub cache_expiry : ℤ
  pub dcos_role : String
  pub listener : Option Listener

-- `producerImpl`; its channel is the list of messages that the goroutine of `Run` takes.
pub record ProducerImpl (Listener Store : Type 0) : Type 0 where
  pub config : Config Listener
  pub store : Store
  pub janitor_run_interval : ℤ

unfoldable pub new_producer :
    (api : StoreApi) {Listener : Type 0}
    → Config Listener
    → ProducerImpl Listener (StoreApi.Store api)
new_producer api cfg = record {
  config = cfg;
  store = StoreApi.new api;
  janitor_run_interval = pos 60000000000;
}

-- Where the server is reached.
pub data Endpoint (Listener : Type 0) : Type 0 where
  on_listener : Listener → Endpoint Listener
  on_tcp : String → Endpoint Listener

module _ {Listener : Type 0} (print_nat : ℕ → String) where
  abbrev pub only : List Listener → Option Listener
  only (l ∷ []) = some l
  only _ = none

  -- The end of `Run`; `systemd` is what `getListener` gives, `none` its error.
  unfoldable pub endpoint_of : Config Listener → Option (List Listener) → Result (Endpoint Listener)
  endpoint_of config systemd = elim config.listener [
    | some l ↦ ok (on_listener l)
    | none ↦ or_failed systemd "Unable to get listeners" >>> λ listeners. elim (only listeners) [
      | some l ↦ ok (on_listener l)
      | none ↦ ok (on_tcp (config.ip <> ":" <> print_nat config.port))
    ]
  ]

  -- The server of the producer: where it is reached, and what it answers there from its store.
  unfoldable pub serve_producer :
      (api : StoreApi)
      → Mux
      → ProducerImpl Listener (StoreApi.Store api)
      → String
      → Request
      → Option (List Write)
  serve_producer api mux p now req = serve mux api p.config.dcos_role now req p.store
