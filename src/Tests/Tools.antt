-- ===== src/Tests/Tools.antt =====
-- Examples of the generator of the schema and of the StatsD emitter.
use dcos_metrics.Schema.{
  Jason, record_constants, items_of, write_fields, write_nested_records, Fatal,
}
use dcos_metrics.Schema.Laws.{IsSchema, schema_text}
use dcos_metrics.Prelude.Int.{pos}
use dcos_metrics.Examples.{
  Round, Process, print_output_rate_loop, events_of, reported, no_bytes, add_bytes, send_some_stats,
  send,
}
use dcos_metrics.Prelude.{
  ℕ, ◌<◌, String, ◌≡◌, refl, inl, inr, ◌&&◌, Option, none, some, List, [], ◌∷◌, arith, ◌==◌,
  if◌then◌else◌, All, eqb, ◌↔◌, Bool-cases, true,
}
use dcos_metrics.Schema.Exact.{write_nested_records-exact}
use mathlib.Core.Path.{subst}

-- A document by numbers: the record 3 has the field 2, whose type 1 is an array of the record 0.
abbrev object_at : ℕ → String → Option ℕ
object_at o key =
    if eqb o 2 && (key == "type")
    then some 1
    else if eqb o 1 && (key == "items")
    then some 0
    else none

abbrev fields_at : ℕ → String → Option (List ℕ)
fields_at o key = if eqb o 3 then some (2 ∷ []) else if eqb o 0 then some [] else none

abbrev text_at : ℕ → String → Option String
text_at o key =
    if eqb o 1
    then some "array"
    else if key == "namespace"
    then some "dcos.metrics"
    else if eqb o 3
    then some "List"
    else some "Item"

object_at-depth : (o p : ℕ) (key : String) → object_at o key ≡ some p → p < o
object_at-depth o p key e = ground (arith, e)

fields_at-depth :
    (o : ℕ) (l : List ℕ) (key : String) → fields_at o key ≡ some l → All (λ p. p < o) l
fields_at-depth o l key e = elim (Bool-cases (eqb o 3)) [
  | inl three ↦
      let same : (2 ∷ []) ≡ l = ground (arith, three, e) in
      subst (All (λ p. p < o)) same (ground (arith, three), tt)
  | inr other ↦ elim (Bool-cases (eqb o 0)) [
    | inl nought ↦
        let same : [] ≡ l = ground (arith, nought, other, e) in subst (All (λ p. p < o)) same tt
    | inr neither ↦ absurd (ground (arith, neither, other, e))
  ]
]

abbrev jason : Jason
jason = record {
  Object = ℕ;
  parse = λ s. some 3;
  get_string = text_at;
  get_object = object_at;
  get_object_array = fields_at;
  print = λ o. "{}";
  depth = λ o. o;
  get_object-depth = object_at-depth;
  get_object_array-depth = fields_at-depth;
}

write_nested_records-exact_example :
    (text : String) × (e : Option Fatal) × (write_nested_records jason 4 3 ≡ some (text, e))
    × ((e ≡ none) ↔ ((l : List ℕ) × IsSchema jason 3 l × (text ≡ schema_text jason l)))
write_nested_records-exact_example = write_nested_records-exact jason 4 3 (omega arith)

written :
    write_nested_records jason 4 3
    ≡ some (
      "\tListNamespace = `dcos.metrics`\n\n\tListSchema = `{}`\n\n\tItemNamespace = `dcos.metrics`\n\n\tItemSchema = `{}`\n",
      none,
    )
unfolding write_nested_records write_fields record_constants items_of
written = refl

abbrev env : Process
env = record { getenv = λ k. "h"; atoi = λ s. some (pos 8125); print_int = λ n. "7" }

abbrev rounds : List (Option (Round env))
rounds =
    some (record { now = pos 5; written = some 30 })
    ∷ none
    ∷ some (record { now = pos 6; written = none })
    ∷ []

sums : reported (print_output_rate_loop (events_of env (pos 1) true rounds) no_bytes).0 ≡ 30
unfolding print_output_rate_loop events_of add_bytes send_some_stats send
sums = refl
