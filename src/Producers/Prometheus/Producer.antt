-- ===== src/Producers/Prometheus/Producer.antt =====
-- producers/prometheus/prometheus.go: what the goroutine of Run and the janitor do to the store. Their text is that of producers/http/http.go again.
use dcos_metrics.Prelude.{ℕ, Option}
use dcos_metrics.Producers.{MetricsMessage}
use dcos_metrics.Producers.Store.{StoreApi}
use dcos_metrics.Prelude.Int.{ℤ}
use dcos_metrics.Producers.Cache.{receive, janitor_tick}

module _ (api : StoreApi) (cache_expiry : ℤ) where
  open api use {Store, new, get, objects}

  -- One round of the goroutine.
  unfoldable pub listen : MetricsMessage → Store → Store
  listen m s = receive api m s

  -- One round of the janitor; `none` is its panic.
  unfoldable pub collect_garbage : (ℕ → ℤ) → Store → Option Store
  collect_garbage clock s = janitor_tick api cache_expiry clock s
