-- ===== src/Producers/Http/Lookups.antt =====
-- The endpoints of producers/http/handlers.go that answer from the keys of the store, over every
-- state that the receiving goroutine and the janitor can reach.
use text.Mathlib.TextLemmas.{append_assoc as text_assoc, append-nil as text_append-nil}
use text.Mathlib.TextPositions.{starts_with-append}
use dcos_metrics.Prelude.{
  String, ◌≡◌, refl, sym, ◌∙◌, ◌≢◌, true, some, List, [], ◌∷◌, arith, ◌<>◌, contains, lookup,
  contains_of_starts_with, Dict, join, ◌↔◌, Elem,
}
use dcos_metrics.Producers.Cache.{qualify, qualified_name}
use dcos_metrics.Producers.Store.{matches, StoreApi, foreign, message, Object}
use dcos_metrics.Producers.{Datapoint, MetricsMessage}
use dcos_metrics.Producers.SortTags.{sort_tags}
use dcos_metrics.Producers.Http.{answer, encode, combined, combine_messages, json, error}
use dcos_metrics.Producers.Cache.Janitor.{AllMessages, AllMessages-of_lookup}
use dcos_metrics.Producers.Http.Combine.{
  combine_messages_sound, combine_and_encode-AllMessages, combine_messages-Elem,
}
use mathlib.Core.Path.{subst}

-- A qualified name begins with its prefix.
qualify-prefix :
    (n : String) (pairs : List (String × String)) → (x : String) × (qualify n pairs ≡ n <> x)
unfolding qualify join
qualify-prefix n [] = ("", sym (text_append-nil n))
qualify-prefix n ((k, v) ∷ pairs) =
    let seg = "." <> ("#" <> k <> ":" <> v) in
    let (x, e) = qualify-prefix (n <> seg) pairs in (seg <> x, e ∙ text_assoc n seg x)

qualified_name-prefix : (p : String) (d : Datapoint) → (x : String) × (qualified_name p d ≡ p <> x)
unfolding qualified_name join
qualified_name-prefix p d =
    let (x, e) = qualify-prefix (p <> "." <> d.name) (sort_tags d.tags) in
    (("." <> d.name) <> x, e ∙ text_assoc p ("." <> d.name) x)

pub matches-qualified_name :
    (p rest : String) (d : Datapoint) → matches (p ∷ []) (qualified_name (p <> rest) d) ≡ true
unfolding matches
matches-qualified_name p rest d =
    let (x, e) = qualified_name-prefix (p <> rest) d in
    let found : contains p (qualified_name (p <> rest) d) ≡ true =
      rw e (
        rw (text_assoc p rest x)
          (contains_of_starts_with p _ (starts_with-append p (rest <> x)))) in
    ground (arith, found)

-- A successful answer is the combined message.
json_of_answer :
    (text : String) (mm : Dict Object) (c : MetricsMessage)
    → AllMessages mm
    → answer text mm ≡ json (combined c) ∷ []
    → (combine_messages mm).0 ≡ c
unfolding answer encode
json_of_answer text [] c a e = cc
json_of_answer text (p ∷ mm) c a e =
    ground (arith, sym (combine_and_encode-AllMessages (p ∷ mm) a) ∙ e)

-- "No content" is answered exactly when nothing matched.
answer_nil_iff :
    (text : String) (mm : Dict Object)
    → AllMessages mm
    → (answer text mm ≡ error 204 text ∷ []) ↔ (mm ≡ [])
unfolding answer encode
answer_nil_iff text [] a = (λ _. refl, λ _. refl)
answer_nil_iff text (p ∷ mm) a = (
  λ e. absurd (ground (arith, sym (combine_and_encode-AllMessages (p ∷ mm) a) ∙ e)),
  λ e. absurd (cc),
)

module _ (api : StoreApi) (s : StoreApi.Store api) where
  open api use {get, get_by_regex, lookup-get_by_regex, get_by_regex-HasUniqueKeys}

  module _ (clean : (k : String) → get s k ≢ some foreign) (text : String)
      (alternatives : List String) where
    found-AllMessages : AllMessages (get_by_regex s alternatives)
    found-AllMessages =
        AllMessages-of_lookup (get_by_regex s alternatives)
          (get_by_regex-HasUniqueKeys s alternatives)
          (λ k e. clean k (ground (arith, lookup-get_by_regex s alternatives k)))

    answer_of_found :
        (mm : Dict Object) (k : String) (m : MetricsMessage) (d : Datapoint)
        → AllMessages mm
        → lookup k mm ≡ some (message m)
        → Elem d m.datapoints
        → (c : MetricsMessage) × (answer text mm ≡ encode (combined c)) × Elem d c.datapoints
    unfolding answer lookup
    answer_of_found [] k m d a e h = cc
    answer_of_found (p ∷ mm) k m d a e h = (
      (combine_messages (p ∷ mm)).0,
      combine_and_encode-AllMessages (p ∷ mm) a,
      combine_messages-Elem d (p ∷ mm) k m a e h,
    )

    -- What matches is in the answer.
    pub answer_complete :
        (k : String) (m : MetricsMessage) (d : Datapoint)
        → get s k ≡ some (message m)
        → matches alternatives k ≡ true
        → Elem d m.datapoints
        → (c : MetricsMessage) × (answer text (get_by_regex s alternatives) ≡ encode (combined c))
          × Elem d c.datapoints
    answer_complete k m d g e h =
        answer_of_found (get_by_regex s alternatives) k m d found-AllMessages
          (ground (arith, lookup-get_by_regex s alternatives k)) h

    -- What is in the answer matches.
    pub answer_sound :
        (c : MetricsMessage) (d : Datapoint)
        → answer text (get_by_regex s alternatives) ≡ json (combined c) ∷ []
        → Elem d c.datapoints
        → (k : String) × (m : MetricsMessage) × (get s k ≡ some (message m))
          × (matches alternatives k ≡ true)
          × Elem d m.datapoints
    answer_sound c d e h =
        let mm = get_by_regex s alternatives in
        let same = json_of_answer text mm c found-AllMessages e in
        let (k, m, f, b) =
          combine_messages_sound d mm (get_by_regex-HasUniqueKeys s alternatives)
            (subst (λ (x : MetricsMessage). Elem d x.datapoints) (sym same) h) in
        let g = lookup-get_by_regex s alternatives k in
        (k, m, ground (arith, f, g), ground (arith, f, g), b)
