-- ===== src/Collectors/Framework/Connection.antt =====
-- collectors/framework/framework.go: `New`, the listener, and the whole of `handleConnection`, from the bytes that are read to the messages that are sent.
pub mod Laws
use dcos_metrics.Collectors.Framework.Throttle.{start, handle, Round, Limits}
use dcos_metrics.Prelude.{
  ℕ, zero, suc, ◌+◌, ◌-◌, ◌≤◌, ◌<◌, String, ◌≡◌, refl, sym, ap, ◌∙◌, ◌≢◌, ◌⊎◌, inl, inr, Bool, true,
  false, ◌&&◌, ◌||◌, not, Option, none, some, List, [], ◌∷◌, ◌++◌, arith, ◌==◌, eq_iff,
  if◌then◌else◌, map,
}
use dcos_metrics.Collectors.Framework.Transform.{AvroApi, transform}
use dcos_metrics.Collectors.{NodeInfo}
use dcos_metrics.Producers.{Value, MetricsMessage}
use dcos_metrics.Prelude.Int.{ℤ}
use dcos_metrics.Collectors.Framework.Extract.{Outcome}
use dcos_metrics.Collectors.Agent.Tasks.{ContainerTaskRels}

-- The settings and what `New` adds to them; the tasks are shared with the agent's collector and come with each record.
pub record Collector : Type 0 where
  pub listen_endpoint : String
  pub record_input_log : Bool
  pub limits : Limits
  pub node_info : NodeInfo

unfoldable pub new_collector : Collector → NodeInfo → Collector
new_collector cfg node_info = record cfg { node_info = node_info }

-- The package net: the address of a text, and a socket that listens there, or anywhere if there is no address.
pub record Net : Type 1 where
  pub Address : Type 0
  pub Socket : Type 0
  pub Connection : Type 0
  pub resolve : String → Option Address
  pub listen : Option Address → Option Socket

module _ (net : Net) where
  open net use {Address, Socket, Connection, resolve, listen}

  -- The endless loop of `RunFrameworkTCPListener` over what `Accept` gives: the connections that get a handler.
  unfoldable pub accept_all : List (Option Connection) → List Connection
  accept_all [] = []
  accept_all (none ∷ rounds) = accept_all rounds
  accept_all (some conn ∷ rounds) = conn ∷ accept_all rounds

  -- Both errors are logged, and the loop starts all the same; `Accept` of no socket is an error.
  unfoldable pub run_listener : Collector → List (Option Connection) → List Connection
  run_listener c rounds = elim (listen (resolve c.listen_endpoint)) [
    | none ↦ []
    | some sock ↦ accept_all rounds
  ]

-- `countingReader`, and its `Read` when the reader below it gave `n` bytes.
pub record CountingReader : Type 0 where
  pub input_bytes : ℕ

unfoldable pub read : ℕ → CountingReader → CountingReader
read n cr = record { input_bytes = cr.input_bytes + n }

unfoldable pub read_all : List ℕ → CountingReader → CountingReader
read_all [] cr = cr
read_all (n ∷ ns) cr = read_all ns (read n cr)

-- What some reads add to the counter.
abbrev pub bytes_read : List ℕ → ℕ
bytes_read ns = CountingReader.input_bytes (read_all ns (record { input_bytes = 0 }))

module _ (api : AvroApi) where
  open api use {Datum, is_record, get}

  -- The topic that a record asks for; `as_string` is the type assertion.
  unfoldable pub get_topic : (Datum → Option String) → Datum → String × Bool
  get_topic as_string obj =
      if is_record obj
      then elim (get obj "topic") [
        | none ↦ ("UNKNOWN_TOPIC_VAL", false)
        | some topic ↦ elim (as_string topic) [
          | none ↦ ("UNKNOWN_TOPIC_TYPE", false)
          | some text ↦ (text, true)
        ]
      ]
      else ("UNKNOWN_RECORD_TYPE", false)

  -- A record that was read, with the clock and the tasks that `transform` finds.
  pub record AvroDatum : Type 0 where
    pub datum : Datum
    pub now : ℤ
    pub time : String
    pub rels : ContainerTaskRels

  -- What one round of the loop meets: the reads of `Scan`, the clock, and the record or an error.
  pub record Arrival : Type 0 where
    pub reads : List ℕ
    pub clock : ℕ
    pub datum : Option AvroDatum

  unfoldable pub round_of : Arrival → Round AvroDatum
  round_of a = record { bytes = bytes_read a.reads; now = a.clock; datum = a.datum }

  module _ (show : Value → String) (node_info : NodeInfo) where
    unfoldable pub outcome_of : AvroDatum → Outcome
    outcome_of d = transform api show d.now d.time d.datum node_info d.rels

    -- The end of the loop: an error is logged, and the message is sent all the same.
    unfoldable pub messages_of_records : List AvroDatum → List MetricsMessage
    messages_of_records [] = []
    messages_of_records (d ∷ ds) = (outcome_of d).0 ∷ messages_of_records ds

    -- `handleConnection`, with the bytes that `NewReader` reads, the time after that, and what comes then; `none` if the stream does not begin as Avro.
    unfoldable pub handle_connection :
        Limits → List ℕ → ℕ → Option (List Arrival) → List MetricsMessage
    handle_connection limits opening now none = []
    handle_connection limits opening now (some arrivals) =
        messages_of_records
          (handle limits (map round_of arrivals) (start limits (bytes_read opening) now))
