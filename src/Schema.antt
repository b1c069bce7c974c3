-- ===== src/Schema.antt =====
-- schema/generator.go: Go constants for the records of an Avro schema.
pub mod Laws
pub mod Exact
pub mod Generate
use dcos_metrics.Prelude.{
  ℕ, zero, suc, ◌+◌, ◌-◌, ◌≤◌, ◌<◌, String, ◌≡◌, refl, sym, ap, ◌∙◌, ◌≢◌, ◌⊎◌, inl, inr, Bool, true,
  false, ◌&&◌, ◌||◌, not, Option, none, some, List, [], ◌∷◌, ◌++◌, arith, ◌==◌, eq_iff,
  if◌then◌else◌, All, ◌<>◌,
}

-- What the code uses of github.com/antonholmquist/jason: a parameter. An object that stands in another is less deep.
pub record Jason : Type 1 where
  pub Object : Type 0
  pub parse : String → Option Object
  pub get_string : Object → String → Option String
  pub get_object : Object → String → Option Object
  pub get_object_array : Object → String → Option (List Object)
  pub print : Object → String
  pub depth : Object → ℕ
  pub get_object-depth :
      (o p : Object) (key : String) → get_object o key ≡ some p → depth p < depth o
  pub get_object_array-depth :
      (o : Object) (l : List Object) (key : String)
      → get_object_array o key ≡ some l
      → All (λ p. depth p < depth o) l

-- The errors that end the process.
pub data Fatal : Type 0 where
  no_name no_namespace no_fields type_not_text type_not_array items_not_object : Fatal
  no_infile unreadable not_parsed no_outfile not_created : Fatal

-- What was written to the file, and the error that ended it, if there was one.
abbrev pub Output : Type 0
Output = String × Option Fatal

-- One part after another; `none` is a run that the fuel was too little for.
abbrev pub then_write : Option Output → Option Output → Option Output
then_write none next = none
then_write (some (text, some e)) next = some (text, some e)
then_write (some (text, none)) none = none
then_write (some (text, none)) (some (rest, e)) = some (text <> rest, e)

-- A text that has to be there, and not empty.
abbrev pub non_empty : Option String → Option String
non_empty none = none
non_empty (some s) = if s == "" then none else some s

module _ (jason : Jason) where
  open jason use {Object, parse, get_string, get_object, get_object_array, print, depth}

  abbrev pub constants : String → String → Object → String
  constants name namespace r =
      "\t"
      <> name
      <> "Namespace = `"
      <> namespace
      <> "`\n\n\t"
      <> name
      <> "Schema = `"
      <> print r
      <> "`\n"

  -- The two constants of a record, or why it has none.
  unfoldable pub record_constants : Object → Fatal ⊎ String
  record_constants r = elim (non_empty (get_string r "name")) [
    | none ↦ inl no_name
    | some name ↦ elim (non_empty (get_string r "namespace")) [
      | none ↦ inl no_namespace
      | some namespace ↦ inr (constants name namespace r)
    ]
  ]

  -- The record below a field's type: the items of an array.
  unfoldable pub items_of : Object → Fatal ⊎ Object
  items_of type = elim (get_string type "type") [
    | none ↦ inl type_not_text
    | some t ↦
        if t == "array"
        then elim (get_object type "items") [ none ↦ inl items_not_object | some items ↦ inr items ]
        else inl type_not_array
  ]

  -- The loop over the fields; `write` is the call for a nested record.
  unfoldable pub write_fields : (Object → Option Output) → List Object → Option Output
  write_fields write [] = some ("", none)
  write_fields write (field ∷ fields) =
      let rest = write_fields write fields in
      elim (get_object field "type") [
        | none ↦ rest
        | some type ↦ elim (items_of type) [
          | inl e ↦ some ("", some e)
          | inr items ↦ then_write (some ("\n", none)) (then_write (write items) rest)
        ]
      ]

  -- `writeNestedRecords`, on fuel.
  unfoldable pub write_nested_records : ℕ → Object → Option Output
  write_nested_records zero r = none
  write_nested_records (suc n) r = elim (record_constants r) [
    | inl e ↦ some ("", some e)
    | inr text ↦ elim (get_object_array r "fields") [
      | none ↦ some (text, some no_fields)
      | some fields ↦ then_write (some (text, none)) (write_fields (write_nested_records n) fields)
    ]
  ]
