-- ===== src/Collectors.antt =====
-- collectors/interface.go: what every collector knows of the node that it runs on.
pub mod Agent
pub mod Framework
pub mod Node
use dcos_metrics.Prelude.{
  ℕ, zero, suc, ◌+◌, ◌-◌, ◌≤◌, ◌<◌, String, ◌≡◌, refl, sym, ap, ◌∙◌, ◌≢◌, ◌⊎◌, inl, inr, Bool, true,
  false, ◌&&◌, ◌||◌, not, Option, none, some, List, [], ◌∷◌, ◌++◌, arith, ◌==◌, eq_iff,
  if◌then◌else◌, any,
}

pub record NodeInfo : Type 0 where
  pub ip_address : String
  pub mesos_id : String
  pub cluster_id : String
  pub hostname : String
  pub leader : String

-- `cosmosLabels` of the framework collector and of the agent collector, the same map in both.
abbrev pub cosmos_labels : List String
cosmos_labels =
    "DCOS_PACKAGE_DEFINITION" ∷ "DCOS_PACKAGE_FRAMEWORK_NAME" ∷ "DCOS_PACKAGE_METADATA"
    ∷ "DCOS_PACKAGE_OPTIONS" ∷ "DCOS_PACKAGE_SOURCE" ∷ "DCOS_SERVICE_PORT_INDEX"
    ∷ "DCOS_SERVICE_SCHEME" ∷ "MARATHON_SINGLE_INSTANCE_APP" ∷ []

-- `_, inSlice := cosmosLabels[key]`.
unfoldable pub is_cosmos : String → Bool
is_cosmos key = any (λ l. l == key) cosmos_labels
