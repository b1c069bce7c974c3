-- ===== src/Tests/Wire.antt =====
-- A list of the emitter that arrives at the collector for frameworks.
use dcos_metrics.Tests.Framework
use dcos_metrics.Tests.Framework.{Avro, rows, many, struct}
use dcos_metrics.Collectors.Framework.Wire.{
  MetricList, Carries, tag_row, datapoint_row, transform-Carries, message_for,
}
use dcos_metrics.Examples.Emitter.{Machine, sender_tags, sender_datapoints, build_metric_list}
use dcos_metrics.Prelude.Int.{pos}
use dcos_metrics.Prelude.{◌≡◌, refl, none, some, [], ◌∷◌, map}
use dcos_metrics.Collectors.Framework.Transform.{transform, patch}

abbrev machine : Machine
machine = record {
  hostname = some "h1";
  pid = pos 7;
  uid = pos 0;
  start = pos 0;
  itoa = λ n. "7";
  float = λ n. 0;
  alloc = pos 1;
  total_alloc = pos 2;
  sys = pos 3;
  lookups = pos 0;
  mallocs = pos 4;
  frees = pos 5;
}

abbrev list : MetricList
list = build_metric_list "demo" (sender_tags machine) (sender_datapoints machine (pos 5000000000))

abbrev datum : Avro
datum = struct (map tag_row list.tags) ((map datapoint_row list.datapoints) ∷ [])

carried : Carries Framework.avro datum list
unfolding patch
carried = record {
  a_record = refl;
  tags = rows (map tag_row list.tags);
  has_tags = refl;
  tag_rows = refl;
  datapoints = many ((map datapoint_row list.datapoints) ∷ []);
  has_datapoints = refl;
  decoded = rows (map datapoint_row list.datapoints) ∷ [];
  sliced = refl;
  datapoint_rows = refl;
}

transform-Carries_example :
    transform Framework.avro Framework.print (pos 6) "now" datum Framework.info []
    ≡ (message_for Framework.print (λ s. refl) [] (pos 6) "now" Framework.info list, none)
transform-Carries_example =
    transform-Carries Framework.print (λ s. refl) [] (pos 6) "now" Framework.avro datum
      Framework.info list ("hostname", "h1")
      (("pid", "7") ∷ ("container_id", "123-foo-bar-baz") ∷ []) _ _ carried refl refl
