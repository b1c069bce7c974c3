-- ===== src/Producers/Cache/Expiry.antt =====
-- When the janitor of producers/http/http.go finds a message too old.
use dcos_metrics.Prelude.{ℕ, ◌+◌, ◌<◌, ◌≡◌, true, arith, ◌^◌, ◌*◌, ◌↔◌}
use dcos_metrics.Producers.Cache.{is_stale, age, saturate}
use dcos_metrics.Prelude.Int.{◌-ℤ◌, ◌*ℤ◌, pos}
use dcos_metrics.Producers.{MetricsMessage}

-- For times since the epoch that fit into 63 bits of nanoseconds: a message is stale exactly when its timestamp, in nanoseconds, and the expiry together lie before the reading of the clock. (A message from the future is not.)
pub is_stale_iff :
    (expiry now seconds : ℕ) (m : MetricsMessage)
    → m.timestamp ≡ pos seconds
    → now < 2 ^ 63
    → seconds * 1000000000 < 2 ^ 63
    → (is_stale (pos expiry) (pos now) m ≡ true) ↔ (seconds * 1000000000 + expiry < now)
unfolding is_stale age saturate ◌-ℤ◌ ◌*ℤ◌
is_stale_iff expiry now seconds m e h k = rw e (λ s. ground arith, λ s. ground arith)
