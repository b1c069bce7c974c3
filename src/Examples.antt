-- ===== src/Examples.antt =====
-- examples/statsd-emitter/main.go: an emitter of StatsD messages that counts the bytes it sends.
pub mod Emitter
use dcos_metrics.Plugins.Librato.{quotient}
use dcos_metrics.Prelude.Int.{ℤ, ◌-ℤ◌}
use dcos_metrics.Prelude.{
  ℕ, ◌+◌, String, Bool, ◌||◌, Option, none, some, List, [], ◌∷◌, ◌==◌, if◌then◌else◌, ◌*◌, ◌<>◌,
  byte_length, zero, suc, ◌-◌, ◌≤◌, ◌<◌, refl, sym, ap, ◌∙◌, ◌≢◌, ◌⊎◌, true, false, ◌&&◌, not, ◌++◌,
  eq_iff,
}
use dcos_metrics.Service.{Result, exited, ok}

pub record ByteCount : Type 0 where
  pub success : ℕ
  pub failed_bytes : ℕ

abbrev pub no_bytes : ByteCount
no_bytes = record { success = 0; failed_bytes = 0 }

-- `byteCount.add`; its `reset` leaves `no_bytes`.
unfoldable pub add_bytes : ByteCount → ByteCount → ByteCount
add_bytes b b2 = record {
  success = b.success + b2.success;
  failed_bytes = b.failed_bytes + b2.failed_bytes;
}

-- What the emitter uses of the system and of strconv.
pub record Process : Type 0 where
  pub getenv : String → String
  pub atoi : String → Option ℤ
  pub print_int : ℤ → String

module _ (env : Process) where
  open env use {getenv, atoi, print_int}

  -- `getEnvAddress`; its errors end the process.
  unfoldable pub get_env_address : Result String
  get_env_address =
      let host = getenv "STATSD_UDP_HOST" in
      let port_str = getenv "STATSD_UDP_PORT" in
      if (host == "") || (port_str == "")
      then exited 1
      else elim (atoi port_str) [ none ↦ exited 1 | some port ↦ ok (host <> ":" <> print_int port) ]

  unfoldable pub uptime : ℤ → Bool → String
  uptime value send_tag =
      "statsd_tester.time.uptime:"
      <> print_int value
      <> "|g"
      <> (if send_tag then "|#test_tag_key:test_tag_value" else "")

  -- `send`, by what the connection's `Write` gave: the bytes that it sent, or an error.
  unfoldable pub send : Option ℕ → String → ByteCount
  send none msg = record { success = 0; failed_bytes = byte_length msg }
  send (some sent) msg = record { success = sent; failed_bytes = 0 }

  -- One round of the loop of `main`: the clock in nanoseconds, and what `Write` gave.
  pub record Round : Type 0 where
    pub now : ℤ
    pub written : Option ℕ

  unfoldable pub message_at : ℤ → Bool → Round → String
  message_at start tag r = uptime (quotient (r.now -ℤ start) 1000000) tag

  unfoldable pub send_some_stats : ℤ → Bool → Round → ByteCount
  send_some_stats start tag r = add_bytes no_bytes (send r.written (message_at start tag r))

-- What is printed at a tick: the last number is called a rate per second.
pub record Report : Type 0 where
  pub success : ℕ
  pub failed_bytes : ℕ
  pub total : ℕ
  pub rate : ℕ

abbrev pub report_of : ByteCount → Report
report_of bc =
    let total = bc.success + bc.failed_bytes in
    record { success = bc.success; failed_bytes = bc.failed_bytes; total = total; rate = total * 6 }

-- What `printOutputRateLoop` selects.
pub data Event : Type 0 where
  tick : Event
  bytes : ByteCount → Event

unfoldable pub print_output_rate_loop : List Event → ByteCount → List Report × ByteCount
print_output_rate_loop [] bc = ([], bc)
print_output_rate_loop (tick ∷ events) bc =
    let (reports, rest) = print_output_rate_loop events no_bytes in (report_of bc ∷ reports, rest)
print_output_rate_loop (bytes b ∷ events) bc = print_output_rate_loop events (add_bytes bc b)

-- The two goroutines together: ticks, and rounds of the loop of `main`.
unfoldable pub events_of : (env : Process) → ℤ → Bool → List (Option (Round env)) → List Event
events_of env start tag [] = []
events_of env start tag (none ∷ l) = tick ∷ events_of env start tag l
events_of env start tag (some r ∷ l) =
    bytes (send_some_stats env start tag r) ∷ events_of env start tag l

-- The bytes of the reports, and those that the rounds sent or failed to send.
abbrev pub reported : List Report → ℕ
reported [] = 0
reported (r ∷ rs) = r.total + reported rs

abbrev pub attempted : (env : Process) → ℤ → Bool → List (Option (Round env)) → ℕ
attempted env start tag [] = 0
attempted env start tag (none ∷ l) = attempted env start tag l
attempted env start tag (some r ∷ l) =
    elim r.written [ some n ↦ n | none ↦ byte_length (message_at env start tag r) ]
    + attempted env start tag l
