-- ===== src/Plugins/Librato.antt =====
-- plugins/librato: the measurements that are made of messages (measurement.go), and the request that posts them (post_request.go).
pub mod Laws
pub mod Post
use dcos_metrics.Prelude.{
  ℕ, zero, suc, ◌+◌, ◌-◌, ◌≤◌, ◌<◌, String, ◌≡◌, refl, sym, ap, ◌∙◌, ◌≢◌, ◌⊎◌, inl, inr, Bool, true,
  false, ◌&&◌, ◌||◌, not, Option, none, some, List, [], ◌∷◌, ◌++◌, arith, ◌==◌, eq_iff,
  if◌then◌else◌, Dict, ltb, leb, all, eqb, ◌<>◌, length, ◌/◌, insert, ◌>>=◌,
}
use dcos_metrics.Producers.{is_nan, Dimensions, Datapoint, Value, MetricsMessage, is_inf}
use dcos_metrics.Producers.Prometheus.Sanitize.{codes, is_word}
use dcos_metrics.Prelude.Int.{ltb_ℤ, ℤ, pos, ◌*ℤ◌, negsuc, ◌-ℤ◌}
use dcos_metrics.Service.Client.{Response}
use dcos_metrics.Plugins.Convert.{
  Conversions, parse_datapoint_timestamp, datapoint_value_to_float64, unix_seconds,
}

-- `measurement`.
pub record Measurement : Type 0 where
  pub name : String
  pub value : ℕ
  pub tags : Dict String
  pub time : ℤ

abbrev pub new_measurement : Measurement
new_measurement = record { name = ""; value = 0; tags = []; time = pos 0 }

-- Go's division of integers, by a positive one: it rounds towards zero.
abbrev pub quotient : ℤ → ℕ → ℤ
quotient (pos n) k = pos (n / k)
quotient (negsuc n) k = pos 0 -ℤ pos (suc n / k)

unfoldable pub floor_time : ℤ → Measurement → Measurement
floor_time (pos zero) m = m
floor_time (pos (suc k)) m = record m { time = quotient m.time (suc k) *ℤ pos (suc k) }
floor_time (negsuc k) m = m

unfoldable pub set_value : Conversions → Value → Measurement → Option Measurement
set_value c value m = do val ← datapoint_value_to_float64 c value; some (record m { value = val })

-- `[-.:_\w]` and `[-.:_\\/\w ]`.
unfoldable pub is_name_char : ℕ → Bool
is_name_char c = eqb c b'-' || eqb c b'.' || eqb c b':' || eqb c b'_' || is_word c

unfoldable pub is_value_char : ℕ → Bool
is_value_char c = is_name_char c || eqb c b'\\' || eqb c b'/' || eqb c b' '

-- `^[-.:_\w]+\z{1,64}$`: the repetition is of the end of the text, and bounds nothing.
unfoldable pub is_tag_name : List ℕ → Bool
is_tag_name name = ltb 0 (length name) && all is_name_char name

-- `^[-.:_\\/\w ]{1,255}$`
unfoldable pub is_tag_value : List ℕ → Bool
is_tag_value value = ltb 0 (length value) && leb (length value) 255 && all is_value_char value

-- `setTag` and `addTag`: an invalid tag is left out.
unfoldable pub add_tag : String → String → Measurement → Measurement
add_tag name value m =
    if is_tag_name (codes name)
    then (if is_tag_value (codes value) then record m { tags = insert name value m.tags } else m)
    else m

unfoldable pub set_tag : String → String → Measurement → Measurement
set_tag name value m = if value == "" then m else add_tag name value m

unfoldable pub validate : Measurement → Bool
validate m = ltb 0 (length m.tags) && not (m.name == "") && ltb_ℤ (pos 0) m.time

-- `postRequestOpts`.
pub record PostRequestOpts : Type 0 where
  pub librato_url : String
  pub librato_email : String
  pub librato_token : String
  pub metric_prefix : String
  pub polling_interval : ℤ

-- `unicode.IsSpace`.
unfoldable pub is_space : ℕ → Bool
is_space c =
    (leb 9 c && leb c 13)
    || eqb c 32
    || eqb c 0x85
    || eqb c 0xA0
    || eqb c 0x1680
    || (leb 0x2000 c && leb c 0x200A)
    || eqb c 0x2028
    || eqb c 0x2029
    || eqb c 0x202F
    || eqb c 0x205F
    || eqb c 0x3000

unfoldable pub is_blank : String → Bool
is_blank s = all is_space (codes s)

-- The tests of `newPostRequest`; a request that is made has the options and no measurements.
unfoldable pub new_post_request : PostRequestOpts → Option PostRequestOpts
new_post_request opts =
    if is_blank opts.librato_url || is_blank opts.librato_email || is_blank opts.librato_token
    then none
    else if ltb_ℤ (pos 0) opts.polling_interval
    then some opts
    else none

unfoldable pub metric_name : PostRequestOpts → String → String
metric_name opts name = if opts.metric_prefix == "" then name else opts.metric_prefix <> "." <> name

unfoldable pub set_tags : Dict String → Measurement → Measurement
set_tags [] m = m
set_tags ((k, v) ∷ tags) m = set_tags tags (set_tag k v m)

unfoldable pub label_tags : Dict String → Dict String
label_tags [] = []
label_tags ((k, v) ∷ labels) = ("label:" <> k, v) ∷ label_tags labels

abbrev pub dimension_tags : Dimensions → Dict String
dimension_tags d =
    ("mesos_id", d.mesos_id)
    ∷ ("cluster_id", d.cluster_id)
    ∷ ("container_id", d.container_id)
    ∷ ("executor_id", d.executor_id)
    ∷ ("framework_name", d.framework_name)
    ∷ ("framework_id", d.framework_id)
    ∷ ("framework_role", d.framework_role)
    ∷ ("framework_principal", d.framework_principal)
    ∷ ("hostname", d.hostname)
    ∷ []

abbrev pub ten_minutes : ℤ
ten_minutes = pos 600000000000

module _ (c : Conversions) (opts : PostRequestOpts) where
  unfoldable pub named : String → ℤ → Measurement
  named name timestamp = record new_measurement {
    name = metric_name opts name;
    time = unix_seconds timestamp;
  }

  unfoldable pub tagged : Dimensions → Dict String → Measurement → Measurement
  tagged d tags m = set_tags (label_tags d.labels) (set_tags (dimension_tags d) (set_tags tags m))

  unfoldable pub finished : Value → Measurement → Option Measurement
  finished value m = do valued ← set_value c value m; if validate valued then some valued else none

  -- The body of the inner loop of `add`, at `now` nanoseconds since the epoch; `none` is a datapoint that is skipped.
  unfoldable pub measure : ℤ → Dimensions → Datapoint → Option Measurement
  measure now d dp = do
    timestamp ← parse_datapoint_timestamp c dp.timestamp
    if ltb_ℤ timestamp (now -ℤ ten_minutes)
        then none
        else finished dp.value
            (tagged d dp.tags (floor_time opts.polling_interval (named dp.name timestamp)))

  -- The loops of `add`. The clock is read anew for each datapoint.
  unfoldable pub add_datapoints : (ℕ → ℤ) → ℕ → Dimensions → List Datapoint → List Measurement
  add_datapoints now i d [] = []
  add_datapoints now i d (dp ∷ dps) = elim (measure (now i) d dp) [
    | none ↦ add_datapoints now (suc i) d dps
    | some m ↦ m ∷ add_datapoints now (suc i) d dps
  ]

  unfoldable pub add : (ℕ → ℤ) → ℕ → List MetricsMessage → List Measurement
  add now i [] = []
  add now i (message ∷ messages) =
      add_datapoints now i message.dimensions message.datapoints
      ++ add now (i + length message.datapoints) messages

-- `libratoSummary`.
pub record LibratoSummary : Type 0 where
  pub total : ℤ
  pub accepted : ℤ
  pub failed : ℤ

pub data SendError : Type 0 where
  no_marshal no_header no_connection : SendError
  no_body : ℕ → SendError
  no_decode : ℕ → SendError
  responded : ℕ → String → SendError

-- `none` is the end without an error.
unfoldable pub check_summary : ℕ → String → LibratoSummary → Option SendError
check_summary code body s = elim s.failed [ pos zero ↦ none | _ ↦ some (responded code body) ]

unfoldable pub check_response : (String → Option LibratoSummary) → Response → Option SendError
check_response unmarshal resp = elim resp.body [
  | none ↦ some (no_body resp.status_code)
  | some body ↦
      if eqb resp.status_code 202
      then elim (unmarshal body) [
        | none ↦ some (no_decode resp.status_code)
        | some s ↦ check_summary resp.status_code body s
      ]
      else some (responded resp.status_code body)
]

-- `authHeader`, for the base64 encoding as a parameter.
unfoldable pub auth_header : (String → String) → PostRequestOpts → Option String
auth_header base64 opts =
    if is_blank opts.librato_email || is_blank opts.librato_token
    then none
    else some ("Basic " <> base64 (opts.librato_email <> ":" <> opts.librato_token))

-- Go's JSON encoder takes no NaN and no infinity.
unfoldable pub is_finite : Measurement → Bool
is_finite m = not (is_nan m.value) && not (is_inf m.value)

-- `send`: the measurements that go over the wire with their header, and the error. `post` is the other side.
unfoldable pub send :
    (String → String)
    → (String → Option LibratoSummary)
    → (String → List Measurement → Option Response)
    → PostRequestOpts
    → List Measurement
    → Option (List Measurement) × Option SendError
send base64 unmarshal post opts ms =
    if all is_finite ms
    then elim (auth_header base64 opts) [
      | none ↦ (none, some no_header)
      | some header ↦ elim (post header ms) [
        | none ↦ (some ms, some no_connection)
        | some resp ↦ (some ms, check_response unmarshal resp)
      ]
    ]
    else (none, some no_marshal)

-- The connector of librato.go: the measurements that go over the wire. Its errors are logged and it returns none of them.
unfoldable pub librato_connector :
    (String → String)
    → (String → Option LibratoSummary)
    → (String → List Measurement → Option Response)
    → Conversions
    → (ℕ → ℤ)
    → PostRequestOpts
    → List MetricsMessage
    → Option (List Measurement)
librato_connector base64 unmarshal post c now opts ms = elim (new_post_request opts) [
  | none ↦ none
  | some request ↦ (send base64 unmarshal post request (add c request now 0 ms)).0
]
