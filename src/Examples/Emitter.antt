-- ===== src/Examples/Emitter.antt =====
-- examples/collector-emitter/main.go: a sender of metrics to the collector for frameworks.
use dcos_metrics.Plugins.Librato.{quotient}
use dcos_metrics.Prelude.Int.{ℤ, ◌-ℤ◌}
use dcos_metrics.Prelude.{
  ℕ, String, ◌≡◌, refl, sym, ap, ◌∙◌, ◌⊎◌, inl, inr, Option, none, some, List, [], ◌∷◌, ◌++◌,
  Option-cases,
}
use dcos_metrics.Collectors.Framework.Wire.{MetricList, WireDatapoint}
use mathlib.Core.List.{append_assoc}
use dcos_metrics.Producers.{int64, float64}

-- What the emitter uses of the system, of strconv and of Go's conversion to float64, which gives bits.
pub record Machine : Type 0 where
  pub hostname : Option String
  pub pid : ℤ
  pub uid : ℤ
  pub start : ℤ
  pub itoa : ℤ → String
  pub float : ℤ → ℕ
  -- of `runtime.MemStats`
  pub alloc : ℤ
  pub total_alloc : ℤ
  pub sys : ℤ
  pub lookups : ℤ
  pub mallocs : ℤ
  pub frees : ℤ

abbrev pub build_tag : String → String → String × String
build_tag key value = (key, value)

abbrev pub build_datapoint : String → ℤ → ℕ → WireDatapoint
build_datapoint name time_ms value = record {
  name = name;
  time_ms = int64 time_ms;
  value = float64 value;
}

abbrev pub build_metric_list : String → List (String × String) → List WireDatapoint → MetricList
build_metric_list topic tags datapoints = record {
  topic = topic;
  tags = tags;
  datapoints = datapoints;
}

module _ (m : Machine) where
  open m use {itoa, float}

  abbrev pub hostname_or_unknown : String
  hostname_or_unknown = elim m.hostname [ none ↦ "UNKNOWN" | some h ↦ h ]

  abbrev pub sender_tags : List (String × String)
  sender_tags =
      build_tag "hostname" hostname_or_unknown
      ∷ build_tag "pid" (itoa m.pid)
      ∷ build_tag "container_id" "123-foo-bar-baz"
      ∷ []

  -- The datapoints at `now` nanoseconds.
  abbrev pub sender_datapoints : ℤ → List WireDatapoint
  sender_datapoints now =
      let ms = quotient (quotient now 1000) 1000 in
      build_datapoint "time.unix" ms (float (quotient now 1000000000))
      ∷ build_datapoint "time.unix_ms" ms (float ms)
      ∷ build_datapoint "time.uptime_ms" ms (float (quotient (quotient (now -ℤ m.start) 1000) 1000))
      ∷ build_datapoint "mem.alloc" ms (float m.alloc)
      ∷ build_datapoint "mem.total_alloc" ms (float m.total_alloc)
      ∷ build_datapoint "mem.sys" ms (float m.sys)
      ∷ build_datapoint "mem.lookups" ms (float m.lookups)
      ∷ build_datapoint "mem.mallocs" ms (float m.mallocs)
      ∷ build_datapoint "mem.frees" ms (float m.frees)
      ∷ build_datapoint "proc.pid" ms (float m.pid)
      ∷ build_datapoint "proc.uid" ms (float m.uid)
      ∷ []

  -- One round of `generateStats`: what it puts on the channel.
  unfoldable pub generate_stats : String → ℤ → List MetricList
  generate_stats topic now = build_metric_list topic sender_tags (sender_datapoints now) ∷ []

-- `TCPWriterProxy`: the error of the last write that failed.
pub record TcpWriterProxy : Type 0 where
  pub last_err : Option String

-- `Write`, by what the socket gave: a number of bytes, or an error; with what is returned.
unfoldable pub write : ℕ ⊎ String → TcpWriterProxy → TcpWriterProxy × (ℕ ⊎ String)
write (inl n) t = (t, inl n)
write (inr e) t = (record { last_err = some e }, inr e)

-- One batch of a session: its records, and what the writes gave until the loop looks for an error.
pub record Batch : Type 0 where
  pub records : List MetricList
  pub writes : List (ℕ ⊎ String)

unfoldable pub write_each : List (ℕ ⊎ String) → TcpWriterProxy → TcpWriterProxy
write_each [] t = t
write_each (w ∷ ws) t = write_each ws (write w t).0

-- The inner loop of `runTCPSerializerSender`: the records that a session takes, and the batches that are left when it breaks.
unfoldable pub session : List Batch → TcpWriterProxy → List MetricList × List Batch
session [] t = ([], [])
session (b ∷ bs) t =
    let t' = write_each b.writes t in
    let rest = session bs t' in
    elim t'.last_err [ some e ↦ (b.records, bs) | none ↦ (b.records ++ rest.0, rest.1) ]

pub records_of : List Batch → List MetricList
records_of [] = []
records_of (b ∷ bs) = b.records ++ records_of bs

-- What a session takes and what it leaves to the next are the batches, in order: a batch with a write that failed is taken, and its records are not sent again.
pub session-records_of :
    (bs : List Batch) (t : TcpWriterProxy)
    → records_of bs ≡ (session bs t).0 ++ records_of (session bs t).1
unfolding records_of session
session-records_of [] t = refl
session-records_of (b ∷ bs) t =
    elim (Option-cases (TcpWriterProxy.last_err (write_each b.writes t))) [
      | inl n ↦
          rw (n, session)
            (ap (λ x. b.records ++ x) (session-records_of bs (write_each b.writes t))
              ∙ sym (append_assoc b.records _ _))
      | inr (e, h) ↦ rw (h, session) refl
    ]
