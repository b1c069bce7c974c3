-- ===== src/Plugins.antt =====
-- plugins: the programs that poll the HTTP producer and send what they get elsewhere.
pub mod Convert
pub mod Metrics
pub mod DatadogStandalone
pub mod Librato
pub mod PromText
pub mod Statsd
pub mod EndToEnd
pub mod Datadog
pub mod Start
pub mod Stdout
