-- ===== src/Service/Broadcast.antt =====
-- dcos-metrics.go: the messages of the collectors, sent on to every producer.
pub mod Laws
use dcos_metrics.Prelude.{
  ℕ, zero, suc, ◌+◌, ◌-◌, ◌≤◌, ◌<◌, String, ◌≡◌, refl, sym, ap, ◌∙◌, ◌≢◌, ◌⊎◌, inl, inr, Bool, true,
  false, ◌&&◌, ◌||◌, not, Option, none, some, List, [], ◌∷◌, ◌++◌, arith, ◌==◌, eq_iff,
  if◌then◌else◌, eqb, any,
}
use dcos_metrics.Producers.{MetricsMessage}
use Prim.Native.Char.{code}

-- The channels that `main` selects from.
pub data Source : Type 0 where
  framework node agent : Source

-- What a producer has received, in order: a send on a channel without a buffer waits for it.
abbrev pub Channel : Type 0
Channel = List MetricsMessage

unfoldable pub broadcast : MetricsMessage → List Channel → List Channel
broadcast msg [] = []
broadcast msg (producer ∷ producers) = (producer ++ msg ∷ []) ∷ broadcast msg producers

-- The loop at the end of `main`, over the messages that `select` takes.
unfoldable pub dispatch : List (Source × MetricsMessage) → List Channel → List Channel
dispatch [] producers = producers
dispatch ((source, metric) ∷ events) producers = dispatch events (broadcast metric producers)

-- The part of a text before its first comma, `strings.Split(s, ",")[0]`.
unfoldable pub before_comma : String → String
before_comma String.[] = ""
before_comma (String.◌∷◌ c s) =
    let rest = before_comma s in if eqb (code c) b',' then "" else String.◌∷◌ c rest

-- The tags of the fields of `ProducersConfig`.
abbrev pub producer_tags : List String
producer_tags = "http,omitempty" ∷ "prometheus,omitempty" ∷ []

unfoldable pub producer_is_configured : String → Bool
producer_is_configured name = any (λ tag. before_comma tag == name) producer_tags

-- The channels of the producers that are started, each empty at first.
unfoldable pub producer_chans : List Channel
producer_chans =
    (if producer_is_configured "http" then [] ∷ [] else [])
    ++ (if producer_is_configured "prometheus" then [] ∷ [] else [])

-- The collectors that are started.
unfoldable pub running : String → List Source
running dcos_role = node ∷ (if dcos_role == "agent" then framework ∷ agent ∷ [] else [])
