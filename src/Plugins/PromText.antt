-- ===== src/Plugins/PromText.antt =====
-- plugins/prometheus/prometheus.go: the text that the plugin serves.
pub mod Laws
pub mod Concurrent
pub mod Lifecycle
use mathlib.Core.List.{Permᴰ}
use Prim.Native.Char.{Char, char, nul}
use Prim.Native.Nat.{Ordering, compare}
use dcos_metrics.Prelude.{
  ℕ, zero, suc, ◌+◌, ◌-◌, ◌≤◌, ◌<◌, String, ◌≡◌, refl, sym, ap, ◌∙◌, ◌≢◌, ◌⊎◌, inl, inr, Bool, true,
  false, ◌&&◌, ◌||◌, not, Option, none, some, List, [], ◌∷◌, ◌++◌, arith, ◌==◌, eq_iff,
  if◌then◌else◌, ◌<>◌, Dict, insert_all, join, ◌>>=◌,
}
use dcos_metrics.Producers.{Value, Dimensions, Datapoint, MetricsMessage}
use dcos_metrics.Plugins.Convert.{Conversions}
use dcos_metrics.Producers.SortTags.{sort_tags}
use dcos_metrics.Prelude.Int.{ℤ, wrap}
use dcos_metrics.Plugins.Librato.{quotient}
use dcos_metrics.Producers.Prometheus.Sanitize.{sanitize, codes, is_legal, clean_char}

-- Go's printing: `%v` of a value, `%q` of a text and `%d` of a number.
pub record Formats : Type 0 where
  pub value : Value → String
  pub quote : String → String
  pub number : ℤ → String
  -- What `Fprintf` writes for a format without arguments.
  pub format : String → String

abbrev pub dimension_entries : Dimensions → Dict String
dimension_entries d =
    ("mesos_id", d.mesos_id)
    ∷ ("cluster_id", d.cluster_id)
    ∷ ("container_id", d.container_id)
    ∷ ("framework_name", d.framework_name)
    ∷ ("framework_id", d.framework_id)
    ∷ ("framework_role", d.framework_role)
    ∷ ("framework_principal", d.framework_principal)
    ∷ ("task_name", d.task_name)
    ∷ ("task_id", d.task_id)
    ∷ ("hostname", d.hostname)
    ∷ []

-- The map `allDimensions`, which is that of the message's labels unless that is nil.
unfoldable pub all_dimensions : Dimensions → Dict String
all_dimensions d = insert_all d.labels (dimension_entries d)

-- What is in the labels' map after the writes to `allDimensions`: a nil map is left as it is, since the writes go to a new one.
abbrev pub kept : Dict String → Dict String → Dict String
kept [] m = []
kept (_ ∷ _) m = m

-- The message's dimensions afterwards.
unfoldable pub relabelled : Dimensions → Dimensions
relabelled d = record d { labels = kept d.labels (all_dimensions d) }

-- The character of a number below the surrogates, which those of a cleaned name all are.
char_if : (n : ℕ) (o : Ordering) → compare n 55296 ≡ o → Char
char_if n Ordering.lt e = char n (rw e tt)
char_if n Ordering.eq e = nul
char_if n Ordering.gt e = nul

unfoldable pub of_codes : List ℕ → String
unfolding char_if
of_codes [] = String.[]
of_codes (n ∷ s) = String.◌∷◌ (char_if n (compare n 55296) refl) (of_codes s)

unfoldable pub sanitize_name : String → String
sanitize_name name = of_codes (sanitize (codes name))

abbrev pub add_line : Option String → String × Dimensions → String × Dimensions
add_line none rest = rest
add_line (some l) rest = (l <> rest.0, rest.1)

-- The order in which one range over a map visits its entries, which Go chooses anew each time.
pub record Range : Type 0 where
  pub visit : Dict String → Dict String
  pub visit-Permᴰ : (m : Dict String) → Permᴰ (visit m) m

module _ (p : Formats) where
  unfoldable pub dimension_labels : Dict String → List String
  dimension_labels [] = []
  dimension_labels ((k, v) ∷ entries) =
      let rest = dimension_labels entries in
      if v == "" then rest else (k <> "=" <> p.quote v) ∷ rest

  unfoldable pub tag_labels : List (String × String) → List String
  tag_labels [] = []
  tag_labels ((k, v) ∷ tags) = (sanitize_name k <> "=" <> p.quote v) ∷ tag_labels tags

  unfoldable pub braces : List String → String
  braces [] = ""
  braces (l ∷ labels) = "{" <> join "," (l ∷ labels) <> "}"

  unfoldable pub get_labels_for_datapoint : Range → Dimensions → Dict String → String
  get_labels_for_datapoint range d tags =
      braces (dimension_labels (range.visit (all_dimensions d)) ++ tag_labels (sort_tags tags))

  -- One pass of the loop of `messageToPromText`; `none` is a timestamp that does not parse.
  unfoldable pub line : Conversions → Range → Dimensions → Datapoint → Option String
  line c range d dp = do
    t ← c.parse_rfc3339 dp.timestamp
    some (
        sanitize_name dp.name
        <> get_labels_for_datapoint range d dp.tags
        <> " "
        <> p.value dp.value
        <> " "
        <> p.number (quotient (wrap 64 t) 1000000)
        <> "\n")

  -- `messageToPromText`, with a range for each datapoint: the text, and the dimensions as they are left.
  unfoldable pub message_to_prom_text :
      Conversions → (ℕ → Range) → Dimensions → List Datapoint → String × Dimensions
  message_to_prom_text c ranges d [] = ("", d)
  message_to_prom_text c ranges d (dp ∷ dps) =
      add_line (line c (ranges 0) d dp)
        (message_to_prom_text c (λ n. ranges (suc n)) (relabelled d) dps)
