-- ===== src/Producers/Prometheus.antt =====
-- producers/prometheus/prometheus.go: what a scrape collects from the store. Metric and label names
-- are lists of code points here.
pub mod Sanitize
pub mod Collect
pub mod Scrape
pub mod Producer
