-- ===== src/Plugins/PromText/Laws.antt =====
-- plugins/prometheus/prometheus.go: `getLabelsForDatapoint` writes into the map of the message's labels, which the next datapoints and the next scrapes share.
use text.Mathlib.TextLemmas.{nil-append}
use dcos_metrics.Plugins.PromText.{Formats, Range, add_line}
use dcos_metrics.Prelude.{
  ℕ, zero, suc, String, ◌≡◌, refl, sym, ap, ◌∙◌, Option, none, some, List, [], ◌∷◌, Dict,
  insert_all, ◌<>◌, ap₂, lookup-insert_all, insert_all-same, lookup, latest, length,
}
use dcos_metrics.Plugins.PromText.{
  all_dimensions, relabelled, message_to_prom_text, line, get_labels_for_datapoint, kept,
  dimension_entries,
}
use dcos_metrics.Plugins.Convert.{Conversions}
use dcos_metrics.Producers.{Dimensions, Datapoint, MetricsMessage}

all_dimensions_again :
    (labels : Dict String) (d : Dimensions)
    → insert_all (kept labels (insert_all labels (dimension_entries d))) (dimension_entries d)
      ≡ insert_all labels (dimension_entries d)
all_dimensions_again [] d = refl
all_dimensions_again (l ∷ labels) d =
    let m = insert_all (l ∷ labels) (dimension_entries d) in
    let found : (k : String) → lookup k m ≡ latest k (dimension_entries d) (lookup k (l ∷ labels)) =
      λ k. lookup-insert_all k (l ∷ labels) (dimension_entries d) in
    insert_all-same m (dimension_entries d) (
      found "mesos_id",
      (
        found "cluster_id",
        (
          found "container_id",
          (
            found "framework_name",
            (
              found "framework_id",
              (
                found "framework_role",
                (
                  found "framework_principal",
                  (found "task_name", (found "task_id", (found "hostname", tt))),
                ),
              ),
            ),
          ),
        ),
      ),
    )

all_dimensions-relabelled : (d : Dimensions) → all_dimensions (relabelled d) ≡ all_dimensions d
unfolding all_dimensions relabelled
all_dimensions-relabelled d = all_dimensions_again d.labels d

abbrev or_empty : Option String → String
or_empty none = ""
or_empty (some s) = s

module _ (p : Formats) (c : Conversions) where
  line-relabelled :
      (range : Range) (d : Dimensions) (dp : Datapoint)
      → line p c range (relabelled d) dp ≡ line p c range d dp
  unfolding line get_labels_for_datapoint
  line-relabelled range d dp = rw (all_dimensions-relabelled d) refl

  -- The lines of the datapoints, each with the dimensions as they come in the message.
  abbrev pub lines : (ℕ → Range) → Dimensions → List Datapoint → String
  lines ranges d [] = ""
  lines ranges d (dp ∷ dps) =
      or_empty (line p c (ranges 0) d dp) <> lines (λ n. ranges (suc n)) d dps

  lines-relabelled :
      (ranges : ℕ → Range) (d : Dimensions) (dps : List Datapoint)
      → lines ranges (relabelled d) dps ≡ lines ranges d dps
  lines-relabelled ranges d [] = refl
  lines-relabelled ranges d (dp ∷ dps) =
      ap₂ (λ o r. or_empty o <> r) (line-relabelled (ranges 0) d dp)
        (lines-relabelled (λ n. ranges (suc n)) d dps)

  add_line-eq : (o : Option String) (t : String × Dimensions) → (add_line o t).0 ≡ or_empty o <> t.0
  add_line-eq none t = sym (nil-append (t.0))
  add_line-eq (some l) t = refl

  add_line-state : (o : Option String) (t : String × Dimensions) → (add_line o t).1 ≡ t.1
  add_line-state none t = refl
  add_line-state (some l) t = refl

  pub message_to_prom_text-eq :
      (ranges : ℕ → Range) (d : Dimensions) (dps : List Datapoint)
      → (message_to_prom_text p c ranges d dps).0 ≡ lines ranges d dps
  unfolding message_to_prom_text
  message_to_prom_text-eq ranges d [] = refl
  message_to_prom_text-eq ranges d (dp ∷ dps) =
      let later : ℕ → Range = λ n. ranges (suc n) in
      add_line-eq (line p c (ranges 0) d dp) (message_to_prom_text p c later (relabelled d) dps)
      ∙ ap (λ r. or_empty (line p c (ranges 0) d dp) <> r)
          (message_to_prom_text-eq later (relabelled d) dps ∙ lines-relabelled later d dps)

  pub lines_after :
      (ranges asked_ranges : ℕ → Range) (d : Dimensions) (dps asked : List Datapoint)
      → lines asked_ranges ((message_to_prom_text p c ranges d dps).1) asked
        ≡ lines asked_ranges d asked
  unfolding message_to_prom_text
  lines_after ranges asked_ranges d [] asked = refl
  lines_after ranges asked_ranges d (dp ∷ dps) asked =
      let later : ℕ → Range = λ n. ranges (suc n) in
      ap (λ e. lines asked_ranges e asked)
        (add_line-state (line p c (ranges 0) d dp)
          (message_to_prom_text p c later (relabelled d) dps))
      ∙ lines_after later asked_ranges (relabelled d) dps asked
      ∙ lines-relabelled asked_ranges d asked

  -- A text of the first messages of a list as the poll left them: the lines of each, with the labels in some order.
  abbrev pub IsText : ℕ → List MetricsMessage → String → Type 0
  IsText zero ms t = t ≡ ""
  IsText (suc n) [] t = ⊥
  IsText (suc n) (m ∷ ms) t =
      (ranges : ℕ → Range) × (rest : String) × (t
        ≡ p.format (lines ranges m.dimensions m.datapoints) <> rest)
      × IsText n ms rest

  -- An answer for a list of messages: status 204 without messages, else the text of all of them.
  abbrev pub IsPage : List MetricsMessage → Option String → Type 0
  IsPage [] answer = answer ≡ none
  IsPage (m ∷ ms) answer = (t : String) × (answer ≡ some t) × IsText (length (m ∷ ms)) (m ∷ ms) t
