-- ===== src/Schema/Generate.antt =====
-- schema/generator.go: `main`, from the file of the schema to the file of Go code.
use dcos_metrics.Schema.Laws.{IsSchema, schema_text, write_nested_records-schema}
use dcos_metrics.Schema.{
  Jason, write_nested_records, then_write, Fatal, Output, no_infile, no_outfile, not_created,
  not_parsed, unreadable,
}
use dcos_metrics.Prelude.{
  suc, String, ◌≡◌, refl, ap, ◌≢◌, ◌⊎◌, inl, inr, Bool, true, false, Option, none, some, List, [],
  ◌∷◌, arith, ◌==◌, eq_iff, if◌then◌else◌, ◌<>◌, contains,
}

-- What the code uses of the system: files, `strings.Split` at newlines, `strings.TrimSpace`, and git.
pub record Workspace : Type 0 where
  pub read_file : String → Option String
  pub split_rows : String → List String
  pub trim : String → String
  -- the directory and the file can be made
  pub creates : String → Bool
  pub rev_parse : Option String
  pub time : String
  pub command : String

-- The rows that are kept: those that do not contain a "doc".
unfoldable pub prune : List String → String
prune [] = ""
prune (row ∷ rows) =
    let rest = prune rows in if contains "\"doc\"" row then rest else row <> "\n" <> rest

module _ (env : Workspace) where
  open env use {read_file, split_rows, trim, creates, rev_parse, time, command}

  unfoldable pub git_rev : String
  git_rev = elim rev_parse [ none ↦ "UNKNOWN" | some rev ↦ trim rev ]

  abbrev pub preamble : String
  preamble =
      "package metricsSchema\n\n// THIS FILE IS AUTOGENERATED BY 'go generate'. DO NOT EDIT.\n// goavro requires that we extract each nested message in our schema. so here we are.\n\n"
      <> "// Generated at: " <> time <> "\n" <> "// Command: " <> command <> "\n"
      <> "// Git revision: " <> git_rev <> "\n\n" <> "const (\n"

  abbrev pub footer : String
  footer = ")\n\n// AGAIN, THIS FILE IS AUTOGENERATED BY 'go generate'. DO NOT EDIT.\n"

  module _ (jason : Jason) where
    open jason use {Object, parse, depth}

    -- The object of a file's rows, or the error before an output file is made.
    unfoldable pub load : String → Fatal ⊎ Object
    load infile = if infile == "" then inl no_infile else elim (read_file infile) [
      | none ↦ inl unreadable
      | some data_read ↦ elim (parse (prune (split_rows data_read))) [
        | none ↦ inl not_parsed
        | some root ↦ inr root
      ]
    ]

    -- The file from its first line on; an error leaves what was written before it.
    unfoldable pub write_file : Object → Option Output
    write_file root =
        then_write (some (preamble, none))
          (then_write (write_nested_records jason (suc (depth root)) root) (some (footer, none)))

    -- `main`: the file that is made, if one is, and the error that ended the process.
    unfoldable pub generate : String → String → Option String × Option Fatal
    generate infile outfile = elim (load infile) [
      | inl e ↦ (none, some e)
      | inr root ↦
          if outfile == ""
          then (none, some no_outfile)
          else if creates outfile
          then elim (write_file root) [ none ↦ (none, none) | some (text, e) ↦ (some text, e) ]
          else (none, some not_created)
    ]

    write_file-schema :
        (root : Object) (l : List Object)
        → IsSchema jason root l
        → write_file root ≡ some (preamble <> (schema_text jason l <> footer), none)
    unfolding write_file
    write_file-schema root l s =
        ap (λ o. then_write (some (preamble, none)) (then_write o (some (footer, none))))
          (write_nested_records-schema jason (suc (depth root)) s (omega arith))

    -- If the rows without "doc" are a schema and the file can be made, the generator ends without an error, and the file has the constants of each of its records, from the outside in, between the preamble and the footer.
    pub generate-schema :
        (infile outfile : String) (root : Object) (l : List Object)
        → load infile ≡ inr root
        → IsSchema jason root l
        → outfile ≢ ""
        → creates outfile ≡ true
        → generate infile outfile ≡ (some (preamble <> (schema_text jason l <> footer)), none)
    unfolding generate
    generate-schema infile outfile root l h s nonempty made =
        let named : (outfile == "") ≡ false = ground (arith, eq_iff outfile "", nonempty) in
        rw (h, named, made, write_file-schema root l s, generate) refl
