-- ===== src/Schema/Exact.antt =====
-- The generator writes a schema whole and stops with an error at anything else.
use dcos_metrics.Schema.Laws.{
  IsSchema, HasNested, schema, no_field, plain, array, schema_text, below, write_fields-plain,
  write_nested_records-schema, write_nested_records-eq, items_of-depth, write_fields-array,
}
use dcos_metrics.Schema.{
  record_constants, Jason, items_of, write_fields, write_nested_records, then_write, Output, Fatal,
  no_fields,
}
use dcos_metrics.Prelude.{
  ℕ, zero, suc, ◌<◌, String, ◌≡◌, refl, sym, ap, ◌∙◌, ◌⊎◌, inl, inr, Option, none, some, List, [],
  ◌∷◌, ◌++◌, arith, ◌<>◌, All, ap₂, ◌↔◌, Option-cases,
}
use mathlib.Core.Path.{subst}

sum_cases : {A B : Type 0} (x : A ⊎ B) → ((a : A) × (x ≡ inl a)) ⊎ ((b : B) × (x ≡ inr b))
sum_cases (inl a) = inl (a, refl)
sum_cases (inr b) = inr (b, refl)

module _ (jason : Jason) where
  open jason use {
    Object, get_object, get_object_array, depth, get_object-depth, get_object_array-depth,
  }

  Fails : Option Output → Type 0
  Fails o = (text : String) × (e : Fatal) × (o ≡ some (text, some e))

  Fails-then :
      (o rest : Option Output) (text : String) (e : Fatal)
      → o ≡ some (text, some e)
      → Fails (then_write o rest)
  unfolding Fails
  Fails-then o rest text e h = (text, e, ap (λ x. then_write x rest) h)

  Fails-after :
      (o rest : Option Output) (text : String)
      → o ≡ some (text, none)
      → Fails rest
      → Fails (then_write o rest)
  unfolding Fails
  Fails-after o rest text h (t, e, f) = (text <> t, e, ap₂ then_write h f)

  items-cases :
      (type : Object)
      → ((e : Fatal) × (items_of jason type ≡ inl e))
        ⊎ ((items : Object) × (items_of jason type ≡ inr items))
  items-cases type = sum_cases (items_of jason type)

  write_fields-refused :
      (write : Object → Option Output) (field type : Object) (fields : List Object) (e : Fatal)
      → get_object field "type" ≡ some type
      → items_of jason type ≡ inl e
      → write_fields jason write (field ∷ fields) ≡ some ("", some e)
  unfolding write_fields
  write_fields-refused write field type fields e f g = rw (f, g, write_fields) refl

  module _ (write : Object → Option Output) (n : ℕ) where
    abbrev Decided : Object → Type 0
    Decided r =
        ((l : List Object) × IsSchema jason r l × (write r ≡ some (schema_text jason l, none)))
        ⊎ Fails (write r)

    write_fields-Decided :
        ((items : Object) → depth items < n → Decided items)
        → (fields : List Object) → All (λ f. depth f < n) fields
        → ((rs : List Object) × HasNested jason fields rs) ⊎ Fails (write_fields jason write fields)
    unfolding Fails
    write_fields-Decided k [] h = inl ([], no_field)
    write_fields-Decided k (field ∷ fields) (h, hs) =
        let rest = write_fields-Decided k fields hs in
        elim (Option-cases (get_object field "type")) [
          | inl none_there ↦ elim rest [
            | inl (rs, s) ↦ inl (rs, plain none_there s)
            | inr f ↦
                inr (subst Fails (sym (write_fields-plain jason write field fields none_there)) f)
          ]
          | inr (type, e) ↦ elim (items-cases type) [
            | inl (bad, f) ↦ inr ("", bad, write_fields-refused write field type fields bad e f)
            | inr (items, f) ↦
                let less : depth items < n = omega (
                  arith,
                  h,
                  items_of-depth jason type items f,
                  get_object-depth field type "type" e,
                ) in
                let same = write_fields-array jason write field type items fields e f in
                elim (k items less) [
                  | inr failed ↦ inr (
                      subst Fails (sym same) (
                        Fails-after _ _ "\n" refl (
                          let (text, bad, g) = failed in
                          Fails-then (write items) (write_fields jason write fields) text bad g)))
                  | inl (l, s, written) ↦ elim rest [
                    | inl (rs, t) ↦ inl (l ++ rs, array e f s t)
                    | inr failed ↦ inr (
                        subst Fails (sym same) (
                          Fails-after _ _ "\n" refl (
                            Fails-after (write items) (write_fields jason write fields)
                              (schema_text jason l) written failed)))
                  ]
                ]
          ]
        ]

  record_constants-refused :
      (n : ℕ) (r : Object) (e : Fatal)
      → record_constants jason r ≡ inl e
      → write_nested_records jason (suc n) r ≡ some ("", some e)
  unfolding write_nested_records
  record_constants-refused n r e f = rw (f, write_nested_records) refl

  fields-missing :
      (n : ℕ) (r : Object) (text : String)
      → record_constants jason r ≡ inr text
      → get_object_array r "fields" ≡ none
      → write_nested_records jason (suc n) r ≡ some (text, some no_fields)
  unfolding write_nested_records
  fields-missing n r text e f = rw (e, f, write_nested_records) refl

  decide : (n : ℕ) (r : Object) → depth r < n → Decided (write_nested_records jason n) n r
  unfolding Fails
  decide zero r h = absurd (omega (arith, h))
  decide (suc n) r h = elim (sum_cases (record_constants jason r)) [
    | inl (e, f) ↦ inr ("", e, record_constants-refused n r e f)
    | inr (text, e) ↦ elim (Option-cases (get_object_array r "fields")) [
      | inl missing ↦ inr (text, no_fields, fields-missing n r text e missing)
      | inr (fields, f) ↦
          elim (write_fields-Decided (write_nested_records jason n) n (λ items d. decide n items d)
            fields
            (below jason n (depth r) fields (omega (arith, h))
              (get_object_array-depth r fields "fields" f))) [
                | inl (rs, s) ↦ inl (
                  r ∷ rs,
                  schema e f s,
                  write_nested_records-schema jason (suc n) (schema e f s) h,
                )
                | inr failed ↦ inr (
                    subst Fails (sym (write_nested_records-eq jason n r text fields e f))
                      (Fails-after _ _ text refl failed))
              ]
    ]
  ]

  -- On fuel above the depth of the object the generator comes to an end. It ends without an error exactly if the object is a schema, a record with a name, a namespace and fields, whose fields have a plain type or an array of such a record; and then what it wrote are the constants of each of its records, from the outside in, each but the first after an empty line.
  pub write_nested_records-exact :
      (n : ℕ) (r : Object)
      → depth r < n
      → (text : String) × (e : Option Fatal) × (write_nested_records jason n r ≡ some (text, e))
        × ((e ≡ none) ↔ ((l : List Object) × IsSchema jason r l × (text ≡ schema_text jason l)))
  write_nested_records-exact n r h = elim (decide n r h) [
    | inl (l, s, w) ↦ (schema_text jason l, none, w, ((λ _. (l, s, refl)), (λ _. refl)))
    | inr failed ↦
        unfold Fails in
        let (text, e, f) = failed in
        (
          text,
          some e,
          f,
          (
            (λ g. absurd (cc)),
            λ (l, s, _).
                let clash : ◌≡◌ {A = Option Output} (some (text, some e))
                    (some (schema_text jason l, none)) =
                  sym f ∙ write_nested_records-schema jason n s h in
                absurd (cc),
          ),
        )
  ]
