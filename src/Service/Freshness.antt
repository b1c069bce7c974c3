-- ===== src/Service/Freshness.antt =====
-- The settings of config.go and the janitor of producers/http/http.go together.
use dcos_metrics.Prelude.{
  ℕ, ◌+◌, ◌≤◌, ◌<◌, String, ◌≡◌, ◌≢◌, inl, inr, false, some, List, arith, ◌^◌, ◌*◌, Bool-cases,
}
use dcos_metrics.Prelude.Int.{ℤ, pos, ◌≤ℤ◌, negsuc}
use dcos_metrics.Producers.{MetricsMessage}
use dcos_metrics.Producers.Cache.{is_stale, janitor_tick}
use dcos_metrics.Service.Config.{Environment, Config, AgentConfig, get_new_config}
use dcos_metrics.Producers.Cache.Expiry.{is_stale_iff}
use dcos_metrics.Producers.Store.{StoreApi, foreign, message}
use dcos_metrics.Service.{ok}
use dcos_metrics.Service.Config.Laws.{get_new_config-expiry}
use dcos_metrics.Producers.Cache.Janitor.{janitor_tick_exact}

not_stale :
    (expiry : ℤ) (now bound seconds : ℕ) (m : MetricsMessage)
    → pos bound ≤ℤ expiry
    → m.timestamp ≡ pos seconds
    → now < 2 ^ 63
    → seconds * 1000000000 < 2 ^ 63
    → now ≤ seconds * 1000000000 + bound
    → is_stale expiry (pos now) m ≡ false
not_stale (negsuc e) now bound seconds m least at small early soon = absurd (omega (arith, least))
not_stale (pos e) now bound seconds m least at small early soon =
    elim (Bool-cases (is_stale (pos e) (pos now) m)) [
      | inl old ↦
          absurd (omega (arith, (is_stale_iff e now seconds m at small early).0 old, soon, least))
      | inr new ↦ new
    ]

module _ (env : Environment) (api : StoreApi) where
  open api use {Store, get}

  -- Under a configuration that `getNewConfig` returned, with a poll period that is not negative and below 2^62 nanoseconds: a tick of the HTTP producer's janitor over a store of messages leaves a message alone if all its readings of the clock lie before the end of two poll periods from the message's timestamp, for times that fit into 63 bits of nanoseconds.
  pub kept_for_two_polls :
      (args : List String) (c : Config) (a : AgentConfig) (period : ℕ) (s : Store) (k : String)
      (m : MetricsMessage) (seconds : ℕ) (clock : ℕ → ℕ)
      → get_new_config env args ≡ ok c
      → c.mesos_agent ≡ some a
      → a.poll_period ≡ pos period
      → period < 2 ^ 62
      → ((j : String) → get s j ≢ some foreign)
      → get s k ≡ some (message m)
      → m.timestamp ≡ pos seconds
      → seconds * 1000000000 < 2 ^ 63
      → ((i : ℕ) → (clock i < 2 ^ 63) × (clock i ≤ seconds * 1000000000 + 2 * period))
      → (t : Store) × (janitor_tick api c.http.cache_expiry (λ i. pos (clock i)) s ≡ some t)
        × (get t k ≡ some (message m))
  kept_for_two_polls args c a period s k m seconds clock ready has p q clean found at early soon =
      let least = get_new_config-expiry env args c a period ready has p q in
      janitor_tick_exact api c.http.cache_expiry (λ i. pos (clock i)) s k m false clean found
        (λ i.
          not_stale c.http.cache_expiry (clock i) (2 * period) seconds m least at (soon i).0 early
            (soon i).1)
