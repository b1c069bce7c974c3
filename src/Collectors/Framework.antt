-- ===== src/Collectors/Framework.antt =====
-- collectors/framework: messages from the Avro records that the Mesos module sends, by record.go and
-- `transform` and `handleConnection` of framework.go.
pub mod Extract
pub mod Transform
use dcos_metrics.Prelude.{
  ℕ, zero, suc, ◌+◌, ◌-◌, ◌≤◌, ◌<◌, String, ◌≡◌, refl, sym, ap, ◌∙◌, ◌≢◌, ◌⊎◌, inl, inr, Bool, true,
  false, ◌&&◌, ◌||◌, not, Option, none, some, List, [], ◌∷◌, ◌++◌, arith, ◌==◌, eq_iff,
  if◌then◌else◌,
}
pub mod Throttle
pub mod Connection
pub mod Wire
