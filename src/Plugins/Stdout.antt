-- ===== src/Plugins/Stdout.antt =====
-- plugins/stdout/stdout.go: the plugin that prints what it gets.
use dcos_metrics.Plugins.Start.{Plugin, start_plugin, start_plugin-goes_on, recognised, polls}
use dcos_metrics.Plugins.Metrics.{metrics, Role, Api}
use dcos_metrics.Prelude.{
  ℕ, ◌<◌, String, ◌≡◌, refl, ap, inl, inr, Bool, true, some, List, [], ◌∷◌, ◌++◌, Dict, ◌<>◌,
  concat_map, Elem, Elem-append_right, Elem-concat_map,
}
use dcos_metrics.Producers.{MetricsMessage, Datapoint, Value}

-- What it prints with fmt: the text of a map of labels, and of a value.
pub record Prints : Type 0 where
  pub labels : Dict String → String
  pub value : Value → String

module _ (fmt : Prints) where
  unfoldable pub print_datapoints : List Datapoint → List String
  print_datapoints [] = []
  print_datapoints (d ∷ ds) =
      ("  " <> d.name <> ": " <> Prints.value fmt d.value) ∷ print_datapoints ds

  unfoldable pub print_labels : Dict String → List String
  print_labels [] = []
  print_labels (l ∷ ls) = ("Labels: " <> Prints.labels fmt (l ∷ ls)) ∷ []

  -- The first line calls the executor a task.
  unfoldable pub print_message : MetricsMessage → List String
  print_message m =
      ("Metrics from task " <> m.dimensions.executor_id <> ", framework "
          <> m.dimensions.framework_name <> ", host " <> m.dimensions.hostname)
        ∷ print_labels m.dimensions.labels
      ++ "Datapoints:" ∷ print_datapoints m.datapoints

  -- The lines of `stdoutConnector`, and that it gives no error.
  unfoldable pub stdout_connector : List MetricsMessage → List String × Bool
  stdout_connector [] = ("No messages received from metrics service" ∷ [], true)
  stdout_connector (m ∷ ms) = (concat_map print_message (m ∷ ms), true)

  stdout_connector-true : (ms : List MetricsMessage) → (stdout_connector ms).1 ≡ true
  unfolding stdout_connector
  stdout_connector-true [] = refl
  stdout_connector-true (m ∷ ms) = refl

  -- The lines of all calls of the connector.
  abbrev pub printed_by : List (List MetricsMessage) → List String
  printed_by [] = []
  printed_by (ms ∷ rest) = (stdout_connector ms).0 ++ printed_by rest

  -- `main`: the lines of at most `n` rounds of the plugin.
  unfoldable pub run_stdout : (ℕ → Api) → Plugin → ℕ → List String
  run_stdout api p n = printed_by (start_plugin api (λ i ms. (stdout_connector ms).1) true p n).0

  -- With a role that is recognised the plugin prints the lines of every poll, in order, as long as every poll gives metrics: no metrics that it gets can stop it.
  pub run_stdout-printed_by :
      (api : ℕ → Api) (p : Plugin) (role : Role) (n : ℕ) (got : ℕ → List MetricsMessage)
      → recognised p.role ≡ some role
      → ((j : ℕ) → j < n → metrics (api j) role ≡ some (got j))
      → run_stdout api p n ≡ printed_by (polls api (λ i ms. (stdout_connector ms).1) got n 0)
  unfolding run_stdout
  run_stdout-printed_by api p role n got r good =
      ap (λ t. printed_by t.0)
        (start_plugin-goes_on api (λ i ms. (stdout_connector ms).1) p role n got r
          (λ j l. (good j l, stdout_connector-true (got j))))

  Elem-datapoints :
      (d : Datapoint) (ds : List Datapoint)
      → Elem d ds
      → Elem ("  " <> d.name <> ": " <> Prints.value fmt d.value) (print_datapoints ds)
  unfolding print_datapoints
  Elem-datapoints d [] h = h
  Elem-datapoints d (x ∷ ds) (inl e) =
      inl (ap (λ (y : Datapoint). "  " <> y.name <> ": " <> Prints.value fmt y.value) e)
  Elem-datapoints d (x ∷ ds) (inr h) = inr (Elem-datapoints d ds h)

  Elem-print_message :
      (d : Datapoint) (m : MetricsMessage)
      → Elem d m.datapoints
      → Elem ("  " <> d.name <> ": " <> Prints.value fmt d.value) (print_message m)
  unfolding print_message
  Elem-print_message d m h = inr (
      Elem-append_right _ (print_labels m.dimensions.labels)
        ("Datapoints:" ∷ print_datapoints m.datapoints) (inr (Elem-datapoints d m.datapoints h)))

  -- Each datapoint of each message that the plugin gets is printed, by name and value.
  pub stdout_connector_complete :
      (d : Datapoint) (m : MetricsMessage) (ms : List MetricsMessage)
      → Elem m ms
      → Elem d m.datapoints
      → Elem ("  " <> d.name <> ": " <> Prints.value fmt d.value) (stdout_connector ms).0
  unfolding stdout_connector
  stdout_connector_complete d m [] i h = absurd i
  stdout_connector_complete d m (x ∷ ms) i h =
      Elem-concat_map print_message m _ (x ∷ ms) i (Elem-print_message d m h)
