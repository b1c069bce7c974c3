-- ===== src/Schema/Laws.antt =====
-- The records that the generator writes, and that it ends.
use text.Mathlib.TextLemmas.{append_assoc as text_assoc, nil-append}
use dcos_metrics.Schema.{
  record_constants, Jason, items_of, write_fields, write_nested_records, then_write, Output,
}
use dcos_metrics.Prelude.{
  ℕ, zero, suc, ◌≤◌, ◌<◌, String, ◌≡◌, refl, sym, ap, ◌∙◌, inl, inr, Option, none, some, List, [],
  ◌∷◌, ◌++◌, arith, ◌<>◌, All, ap₂,
}

module _ (jason : Jason) where
  open jason use {
    Object, get_object, get_object_array, depth, get_object-depth, get_object_array-depth,
  }

  mutual
    -- A record is a schema whose records, from the outside in, are those of the list.
    pub data IsSchema : Object → List Object → Type 0 where
      schema :
          {r : Object} {text : String} {fields rs : List Object}
          → record_constants jason r ≡ inr text
          → get_object_array r "fields" ≡ some fields
          → HasNested fields rs
          → IsSchema r (r ∷ rs)

    pub data HasNested : List Object → List Object → Type 0 where
      no_field : HasNested [] []
      plain :
          {field : Object} {fields rs : List Object}
          → get_object field "type" ≡ none
          → HasNested fields rs
          → HasNested (field ∷ fields) rs
      array :
          {field type items : Object} {fields rs ss : List Object}
          → get_object field "type" ≡ some type
          → items_of jason type ≡ inr items
          → IsSchema items rs
          → HasNested fields ss
          → HasNested (field ∷ fields) (rs ++ ss)

  abbrev pub entry_text : Object → String
  entry_text r = elim (record_constants jason r) [ inl e ↦ "" | inr text ↦ text ]

  -- The constants of some records, each after an empty line, and those of a schema.
  abbrev pub nested_text : List Object → String
  nested_text [] = ""
  nested_text (r ∷ rs) = "\n" <> entry_text r <> nested_text rs

  abbrev pub schema_text : List Object → String
  schema_text [] = ""
  schema_text (r ∷ rs) = entry_text r <> nested_text rs

  nested_text-append :
      (rs ss : List Object) → nested_text (rs ++ ss) ≡ nested_text rs <> nested_text ss
  nested_text-append [] ss = sym (nil-append (nested_text ss))
  nested_text-append (r ∷ rs) ss =
      ap (λ t. "\n" <> entry_text r <> t) (nested_text-append rs ss)
      ∙ ap (λ t. "\n" <> t) (sym (text_assoc (entry_text r) (nested_text rs) (nested_text ss)))
      ∙ sym (text_assoc "\n" (entry_text r <> nested_text rs) (nested_text ss))

  IsSchema-text :
      {r : Object} {l : List Object} → IsSchema r l → "\n" <> schema_text l ≡ nested_text l
  IsSchema-text (schema e f h) = refl

  record_constants-text :
      (r : Object) (text : String) → record_constants jason r ≡ inr text → entry_text r ≡ text
  record_constants-text r text e = ap (λ x. elim x [ inl e ↦ "" | inr t ↦ t ]) e

  pub items_of-depth :
      (type items : Object) → items_of jason type ≡ inr items → depth items < depth type
  unfolding items_of
  items_of-depth type items e = get_object-depth type items "items" (ground (arith, e))

  module _ (write : Object → Option Output) where
    pub write_fields-plain :
        (field : Object) (fields : List Object)
        → get_object field "type" ≡ none
        → write_fields jason write (field ∷ fields) ≡ write_fields jason write fields
    unfolding write_fields
    write_fields-plain field fields e = rw (e, write_fields) refl

    pub write_fields-array :
        (field type items : Object) (fields : List Object)
        → get_object field "type" ≡ some type
        → items_of jason type ≡ inr items
        → write_fields jason write (field ∷ fields)
          ≡ then_write
              (some ("\n", none))
              (then_write (write items) (write_fields jason write fields))
    unfolding write_fields
    write_fields-array field type items fields e f = rw (e, f, write_fields) refl

    pub write_fields-nothing : write_fields jason write [] ≡ some ("", none)
    unfolding write_fields
    write_fields-nothing = refl

    -- The loop over the fields, when the call for a nested record writes each schema below a depth.
    write_fields-schema :
        (n : ℕ)
        → ((items : Object) (l : List Object)
            → IsSchema items l
            → depth items < n
            → write items ≡ some (schema_text l, none))
        → {fields rs : List Object} → HasNested fields rs
        → All (λ f. depth f < n) fields
        → write_fields jason write fields ≡ some (nested_text rs, none)
    write_fields-schema n k no_field h = write_fields-nothing
    write_fields-schema n k {fields = field ∷ fields} (plain e s) (h, hs) =
        write_fields-plain field fields e ∙ write_fields-schema n k s hs
    write_fields-schema n k {fields = field ∷ fields}
          (array {type = type} {items = items} {rs = rs} {ss = ss} e f s t) (h, hs) =
        let less : depth items < n =
          omega (arith, h, items_of-depth type items f, get_object-depth field type "type" e) in
        write_fields-array field type items fields e f
        ∙ ap₂ (λ x y. then_write (some ("\n", none)) (then_write x y)) (k items rs s less)
            (write_fields-schema n k t hs)
        ∙ ap (λ x. some (x, none))
            (sym (text_assoc "\n" (schema_text rs) (nested_text ss))
              ∙ ap (λ x. x <> nested_text ss) (IsSchema-text s)
              ∙ sym (nested_text-append rs ss))

  pub write_nested_records-eq :
      (n : ℕ) (r : Object) (text : String) (fields : List Object)
      → record_constants jason r ≡ inr text
      → get_object_array r "fields" ≡ some fields
      → write_nested_records jason (suc n) r
        ≡ then_write (some (text, none)) (write_fields jason (write_nested_records jason n) fields)
  unfolding write_nested_records
  write_nested_records-eq n r text fields e f = rw (e, f, write_nested_records) refl

  pub below :
      (n m : ℕ) (fields : List Object)
      → m ≤ n
      → All (λ f. depth f < m) fields
      → All (λ f. depth f < n) fields
  below n m [] h k = tt
  below n m (f ∷ fields) h (k, ks) = (omega (arith, h, k), below n m fields h ks)

  pub write_nested_records-schema :
      (n : ℕ) {r : Object} {l : List Object}
      → IsSchema r l
      → depth r < n
      → write_nested_records jason n r ≡ some (schema_text l, none)
  write_nested_records-schema zero s h = absurd (omega (arith, h))
  write_nested_records-schema (suc n) {r = r}
        (schema {text = text} {fields = fields} {rs = rs} e f s) h =
      write_nested_records-eq n r text fields e f
      ∙ ap (then_write (some (text, none))) (
          write_fields-schema (write_nested_records jason n) n
            (λ items l s d. write_nested_records-schema n s d) s
            (below n (depth r) fields (omega (arith, h))
              (get_object_array-depth r fields "fields" f)))
      ∙ ap (λ t. some (t <> nested_text rs, none)) (sym (record_constants-text r text e))
