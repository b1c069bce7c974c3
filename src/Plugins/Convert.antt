-- ===== src/Plugins/Convert.antt =====
-- plugins/utils.go: values and timestamps of datapoints.
use dcos_metrics.Prelude.{ℕ, String, Option, none, some, ◌==◌, if◌then◌else◌, ◌/◌}
use dcos_metrics.Prelude.Int.{ℤ, pos, negsuc}
use dcos_metrics.Producers.{Value, float64, float32, int64, int32, int, text}

-- Go's conversions, `strconv.ParseFloat` and `time.Parse`, on bit patterns and nanoseconds since the epoch.
pub record Conversions : Type 0 where
  pub of_int : ℤ → ℕ
  pub of_float32 : ℕ → ℕ
  pub parse_float : String → Option ℕ
  pub parse_rfc3339 : String → Option ℤ

-- `DatapointValueToFloat64`; unsigned numbers are refused.
unfoldable pub datapoint_value_to_float64 : Conversions → Value → Option ℕ
datapoint_value_to_float64 c (float64 bits) = some bits
datapoint_value_to_float64 c (float32 bits) = some (c.of_float32 bits)
datapoint_value_to_float64 c (int64 i) = some (c.of_int i)
datapoint_value_to_float64 c (int32 i) = some (c.of_int i)
datapoint_value_to_float64 c (int i) = some (c.of_int i)
datapoint_value_to_float64 c (text s) = c.parse_float s
datapoint_value_to_float64 c _ = none

unfoldable pub parse_datapoint_timestamp : Conversions → String → Option ℤ
parse_datapoint_timestamp c timestamp = if timestamp == "" then none else c.parse_rfc3339 timestamp

-- `Time.Unix`: whole seconds, rounded down.
abbrev pub unix_seconds : ℤ → ℤ
unix_seconds (pos n) = pos (n / 1000000000)
unix_seconds (negsuc n) = negsuc (n / 1000000000)
