-- ===== src/Tests/Framework.antt =====
-- Examples of collectors/framework.
use dcos_metrics.Collectors.Framework.Extract.{
  Record, Field, AvroRecord, two_fields, extract_tags, datapoint_fields, extract,
  extract_datapoints, three_fields,
}
use dcos_metrics.Prelude.{
  ◌≤◌, String, ◌≡◌, refl, ap, ◌∙◌, Bool, true, false, Option, none, some, List, [], ◌∷◌, arith,
  ◌==◌, if◌then◌else◌, map, ◌++◌, filter,
}
use dcos_metrics.Producers.{text, Value}
use dcos_metrics.Collectors.Agent.{KeyValue, TaskInfo}
use dcos_metrics.Collectors.Framework.Throttle.{
  Round, handle, Limits, Loop, nanoseconds_of, reset_time, read_of,
}
use dcos_metrics.Collectors.Framework.Transform.{transform, AvroApi, transform_record, patch}
use dcos_metrics.Collectors.{NodeInfo}
use dcos_metrics.Collectors.Framework.Transform.Laws.{IsTagged, transform-IsTagged}
use dcos_metrics.Producers.Cache.{receive_all}
use dcos_metrics.Collectors.Framework.Extract.Laws.{BeginsWithoutDatapoint}
use dcos_metrics.Producers.Store.Lists.{list_store}
use dcos_metrics.Prelude.Int.{pos, ◌≤ℤ◌, ◌+ℤ◌, ◌*ℤ◌}
use dcos_metrics.Tests.Values.{only_web}
use mathlib.Core.Path.{subst}
use dcos_metrics.Collectors.Framework.Connection.{
  AvroDatum, round_of, Arrival, handle_connection, messages_of_records, read_all, read,
}
use dcos_metrics.Collectors.Framework.Throttle.Bounds.{IsCut, handle-IsCut}
use dcos_metrics.Collectors.Framework.Connection.Laws.{is_accepted, handle_connection-stored}

-- A small instance of the Avro library: a record with its tags and its datapoints.
pub data Avro : Type 0 where
  rows : List Record → Avro
  many : List (List Record) → Avro
  struct : List Record → List (List Record) → Avro

abbrev pub rows_in : Avro → List Record
rows_in (rows l) = l
rows_in _ = []

abbrev field : String → Field
field s = record { name = text ""; datum = text s }

abbrev pub print : Value → String
print (text s) = s
print _ = "?"

abbrev pub rows_of : Avro → Option AvroRecord
rows_of (rows l) = some l
rows_of (many (l ∷ [])) = some l
rows_of _ = none

abbrev pub struct_field : Avro → String → Option Avro
struct_field (struct tags dps) key =
    if key == "tags"
    then some (rows tags)
    else if key == "datapoints"
    then some (many dps)
    else none
struct_field _ key = none

abbrev pub struct_test : Avro → Bool
struct_test (struct tags dps) = true
struct_test _ = false

abbrev pub struct_slice : Avro → Option (List Avro)
struct_slice (many l) = some (map rows l)
struct_slice _ = none

abbrev pub avro : AvroApi
avro = record {
  Datum = Avro;
  is_record = struct_test;
  slice = struct_slice;
  of_slice = λ l. many (map rows_in l);
  as_float64 = λ d. none;
  get = struct_field;
  set = λ d key v. d;
  create_object = rows_of;
}

abbrev tag_row : String → String → Record
tag_row name value = record { name = "dcos.metrics.Tag"; fields = field name ∷ field value ∷ [] }

abbrev datapoint_row : String → Record
datapoint_row name = record {
  name = "dcos.metrics.Datapoint";
  fields = field name ∷ field "0" ∷ field "1" ∷ [];
}

abbrev broken_row : Record
broken_row = record { name = "dcos.metrics.Datapoint"; fields = [] }

abbrev pub info : NodeInfo
info = record { ip_address = ""; mesos_id = "m1"; cluster_id = "k"; hostname = "h1"; leader = "" }

abbrev pub good : Avro
good = struct (tag_row "zone" "a" ∷ []) ((datapoint_row "hits" ∷ []) ∷ [])

abbrev pub bad : Avro
bad = struct (tag_row "zone" "a" ∷ []) ((broken_row ∷ []) ∷ [])

bad_refused : (transform avro print (pos 1) "now" bad info []).1 ≡ some (datapoint_fields 0)
unfolding transform transform_record extract extract_tags two_fields patch extract_datapoints
    three_fields
bad_refused = refl

good_accepted : (transform avro print (pos 1) "now" good info []).1 ≡ none
unfolding transform transform_record extract extract_tags two_fields patch extract_datapoints
    three_fields
good_accepted = refl

bad_tagged :
    (tags : Avro) (ar : AvroRecord)
    → struct_field bad "tags" ≡ some tags
    → rows_of tags ≡ some ar
    → BeginsWithoutDatapoint ar
bad_tagged tags ar e f =
    let here : rows (tag_row "zone" "a" ∷ []) ≡ tags = cc in
    let there : (tag_row "zone" "a" ∷ []) ≡ ar =
      (let g : some (rows_in (rows (tag_row "zone" "a" ∷ []))) ≡ some ar = ap rows_of here ∙ f in
        cc) in
    subst BeginsWithoutDatapoint there refl

good_tagged :
    (tags : Avro) (ar : AvroRecord)
    → struct_field good "tags" ≡ some tags
    → rows_of tags ≡ some ar
    → BeginsWithoutDatapoint ar
good_tagged tags ar e f =
    let here : rows (tag_row "zone" "a" ∷ []) ≡ tags = cc in
    let there : (tag_row "zone" "a" ∷ []) ≡ ar =
      (let g : some (rows_in (rows (tag_row "zone" "a" ∷ []))) ≡ some ar = ap rows_of here ∙ f in
        cc) in
    subst BeginsWithoutDatapoint there refl

transform-IsTagged_example : IsTagged (transform avro print (pos 1) "now" good info []).0
transform-IsTagged_example = transform-IsTagged avro print (pos 1) "now" good info [] good_accepted

abbrev labels : List KeyValue
labels =
    record { key = "team"; value = "a" } ∷ record { key = "DCOS_PACKAGE_SOURCE"; value = "x" } ∷ []

abbrev job : TaskInfo
job = record { id = "t1"; name = "job"; labels = labels; statuses = [] }

abbrev zone_row : Record
zone_row = tag_row "zone" "a"

abbrev container_row : Record
container_row = tag_row "container_id" "web"

abbrev limits : Limits
limits = record { amount_kbytes = pos 1; period = pos 60 }

abbrev fresh : Loop
fresh = record { input_bytes = 0; next_input_reset_time = pos 100; record_count = 0 }

abbrev arrival : Round String
arrival = record { bytes = 500; now = 50; datum = some "r" }

in_time : 50 ≤ 100
in_time = omega arith

handle-IsCut_example :
    (a : List (Round String)) × (b : List (Round String)) × ((arrival ∷ arrival ∷ arrival ∷ [])
      ≡ a ++ b)
    × (handle limits (arrival ∷ arrival ∷ arrival ∷ []) fresh ≡ read_of a)
    × IsCut limits a b 0
handle-IsCut_example =
    handle-IsCut limits (arrival ∷ arrival ∷ arrival ∷ []) fresh (in_time, (in_time, (in_time, tt)))

-- A record after the time of the reset, larger than the limit, and one that fits behind it.
abbrev big : Round String
big = record { bytes = 5000; now = 200; datum = some "big" }

abbrev behind : Round String
behind = record { bytes = 500; now = 300; datum = some "r" }

abbrev datum_of : Avro → AvroDatum avro
datum_of d = record { datum = d; now = pos 1; time = "now"; rels = [] }

abbrev arrivals : List (Arrival avro)
arrivals =
    record { reads = 300 ∷ 200 ∷ []; clock = 50; datum = some (datum_of good) }
    ∷ record { reads = 300 ∷ []; clock = 60; datum = some (datum_of bad) }
    ∷ []

in_period : pos 60 ≤ℤ reset_time limits 10
unfolding nanoseconds_of ◌+ℤ◌ ◌*ℤ◌
in_period = omega arith

in_period_too : pos 50 ≤ℤ reset_time limits 10
unfolding nanoseconds_of ◌+ℤ◌ ◌*ℤ◌
in_period_too = omega arith

handle_connection-stored_example :
    (a : List (Round (AvroDatum avro))) × (b : List (Round (AvroDatum avro))) × (map
        (round_of avro)
        arrivals
      ≡ a ++ b)
    × IsCut limits a b 200
    × (receive_all list_store
          (handle_connection avro print info limits (200 ∷ []) 10 (some arrivals))
          only_web
        ≡ receive_all list_store
            (messages_of_records avro print info (filter (is_accepted avro print info) (read_of a)))
            only_web)
unfolding round_of read_all read
handle_connection-stored_example =
    handle_connection-stored avro print info list_store limits (200 ∷ []) 10 arrivals only_web
      (in_period_too, (in_period, tt)) (good_tagged, (bad_tagged, tt))
