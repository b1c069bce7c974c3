-- ===== src/Lib.antt =====
-- dcos-metrics: the collectors that gather the metrics of a DC/OS node, the producers that keep and
-- serve them, and the plugins that pass them on.
--
-- Collectors send messages (producers/interface.go) over channels. A producer files each datapoint of
-- a message in a store under a qualified name, answers requests from the store, and lets a janitor
-- remove what is stale. A plugin asks a producer over HTTP and converts the answers for a service.
--
--   Producers           producers/interface.go: MetricsMessage, Datapoint, Dimensions, the prefixes
--   Producers/SortTags  util/producers/producers.go: SortTags
--   Producers/Store     the vendored store that the producers use, as an interface with its laws;
--                       Store/Lists is an instance that meets them
--   Producers/Cache     producers/http/http.go: writeObjectToStore, the receiving goroutine of Run,
--                       janitor. Interleaving makes each call of the store one step of two goroutines;
--                       Runs and Races: what a tick of the janitor then does
--   Producers/Http      producers/http/handlers.go, routes.go: each handler is the list of what it
--                       writes to the response; Router (router.go): which handler a path reaches;
--                       Serving (http.go): New, and where Run listens
--   Producers/Prometheus  producers/prometheus/prometheus.go: sanitize, coerceToFloat, Collect, and
--                       the two goroutines of its store (Producer), which are those of Producers/Cache again
--   Collectors          collectors/interface.go
--   Collectors/Agent    collectors/mesos/agent: the decoded answers (state.go, container.go), the tasks
--                       and labels of containers and the polls (agent.go), the datapoints (metrics.go);
--                       Poller: New and the rounds of RunPoller
--   Collectors/Framework  collectors/framework: extract and convertLabels (record.go), transform, the
--                       limit on input (Throttle), the listener and the whole of handleConnection
--                       (Connection, all of framework.go); Wire: the lists of schema/metrics.avsc that arrive
--   Collectors/Node     collectors/node: the seven pollers (Cpu, Pollers), getNodeMetrics (metrics.go),
--                       pollHost and transform, New and the rounds of RunPoller (node.go, Rounds)
--   Service/Config      config.go: newConfig, getNodeInfo, getNewConfig
--   Service/Client      util/http/helpers/helpers.go: the client and its certificates;
--                       util/http/client/client.go: Fetch
--   Service/Broadcast   dcos-metrics.go: what main starts, and its loop over the collectors' messages
--   Service/Freshness   the settings and the janitor together
--   Service/NodeServed  the node collector, the HTTP producer's writer and its node endpoint together
--   Plugins/Start       plugins/plugin.go: New, createClient, StartPlugin
--   Plugins/Metrics     plugins/plugin.go: Metrics and its requests
--   Plugins/EndToEnd    the requests of plugins/plugin.go answered by producers/http/handlers.go
--   Plugins/Convert     plugins/utils.go
--   Plugins/DatadogStandalone  plugins/datadog-standalone/datadog-standalone.go (Post: the request)
--   Plugins/Librato     plugins/librato: measurement.go, post_request.go, librato_response.go, librato.go
--   Plugins/PromText    plugins/prometheus/prometheus.go: the page; Concurrent: the connector and
--                       scrapes at the same time; Lifecycle: the hooks that start and stop the server
--   Plugins/Stdout      plugins/stdout/stdout.go
--   Plugins/Statsd      plugins/statsd/statsd.go
--   Plugins/Datadog     plugins/datadog/datadog.go
--   Schema              schema/generator.go: writeNestedRecords, and main (Generate)
--   Examples            examples/statsd-emitter/main.go; Emitter: examples/collector-emitter/main.go
--   Prelude             tests, lists, maps, texts and integers
--   Tests               runs on small inputs, and examples of the theorems
--
-- Texts are sequences of characters, in whose order sort.Strings also puts their UTF-8 bytes. A float
-- is its bit pattern. A signed integer is wrapped where the code computes with it (wrap). A Go map is
-- an association list, and ranging over it visits it in the list's order, but in the pages of the Prometheus plugin, where each range has an order of its own (Range). All loops are over finite lists, so no fuel is used, but for the
-- generator of the schema, which recurses on a parsed document: its fuel is one more than the depth of the document.
-- The endless loops are given by their rounds: RunPoller by a list of polls, handleConnection by the rounds that a
-- connection meets, Run and janitor by what they do with one message or one tick and by the steps of the
-- files named Interleaving and Concurrent, StartPlugin by its first n rounds for every n. A clock is an argument. The loop variables of Go 1.9
-- are one variable for the whole loop, which is written out where a pointer to them outlives a round
-- (Prometheus, DatadogStandalone), and so are the slices that share an array.
--
-- Parameters stand for what is not in the repository: the store's operations (StoreApi), goavro and
-- encoding/json (AvroApi, Decoders), gorilla/mux (Mux), the package net (Net), jason (Jason), strconv and time (Conversions), fmt and strings (Printing, Formats), Go's number
-- conversions (FloatConversions, Rounding), the Prometheus client (NewConstMetric), the spare capacity that
-- append leaves, gopsutil (Host, FloatOps), the command line, files and nodeutil (Environment,
-- Certificates), the clients that plugins send with, and what another process answers (Fetched, Api,
-- Response).
--
-- Not modelled: sockets, log messages and the profiler; that transform asks for the tasks of
-- containers, each under the lock, while the agent's collector replaces them; two scrapes of
-- the Prometheus plugin that write one map in the same instant; the C++ Mesos module; how the
-- emitter of Avro records connects again, the other examples and the generated schema code; failures of single writes to the generator's file.
pub mod Prelude
pub mod Producers
pub mod Collectors
pub mod Service
pub mod Plugins
pub mod Schema
pub mod Examples
pub mod Tests
