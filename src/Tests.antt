-- ===== src/Tests.antt =====
-- Runs of the definitions on small inputs, and examples of the theorems.
pub mod Values
pub mod Cache
pub mod Http
pub mod Framework
pub mod Agent
pub mod Prometheus
pub mod Plugins
pub mod Service
pub mod Node
pub mod Senders
pub mod EndToEnd
pub mod Poller
pub mod Router
pub mod Tools
pub mod Wire
pub mod Scrapes
