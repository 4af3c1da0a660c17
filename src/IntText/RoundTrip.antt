-- ===== src/IntText/RoundTrip.antt =====
-- export.rs `render_int` and int.rs: a table written as a text and read back.
use mathlib.Core.List.{append_assoc, append-nil}
use wx_btrieve_sql_driver.Base.{
  All, List, Str, [], ap, codes, false, inl, inr, is_empty, none, refl, some, sym, ◌++◌, ◌∙◌, ◌∷◌,
  ◌≡◌, ◌⊎◌,
}
use wx_btrieve_sql_driver.Importer.Runner.Files.{behind}
use wx_btrieve_sql_driver.Importer.Schema.{IntFile, IntIndex}
use wx_btrieve_sql_driver.IntText.Entries.{OneLine, lines-unlines}
use wx_btrieve_sql_driver.IntText.FieldLines.{IsField, all_field_lines}
use wx_btrieve_sql_driver.IntText.Header.{HasNames, render_header-HeaderLine}
use wx_btrieve_sql_driver.IntText.IndexBlocks.{all_index_lines}
use wx_btrieve_sql_driver.IntText.IndexLines.{IsIndex, all_stored}
use wx_btrieve_sql_driver.IntText.Lines.{lines}
use wx_btrieve_sql_driver.IntText.Named.{name_found}
use wx_btrieve_sql_driver.IntText.Ordered.{Rising, all_stored-Rising, sort-Rising}
use wx_btrieve_sql_driver.IntText.Parse.{
  fields_loop, first_field_state, first_index_state, flush_field, flush_index, indexes_loop,
  parse_fields, parse_indexes,
}
use wx_btrieve_sql_driver.IntText.Render.{
  kv, render_all, render_field, render_header, render_index, render_int,
}
use wx_btrieve_sql_driver.IntText.Rendered.{render_field-FieldLine, render_index-IndexLine}
use wx_btrieve_sql_driver.IntText.Skipped.{
  All-app, All-render_all, All-weaken, FieldLine, HeaderLine, IndexLine, SkipsFields, SkipsIndexes,
  fields_loop-skips, indexes_loop-skips,
}
use wx_btrieve_sql_driver.IntText.Table.{
  IntResult, build_indexes_from_field_index, index_fields, or_built, parse, sort_by_num,
}
use wx_btrieve_sql_driver.Schema.{IntField}

-- A table that its text can hold.
pub record IsTable (f : IntFile) (server : Str) : Type 0 where
  pub names : HasNames f server
  pub fields : All IsField f.fields
  pub indexes : All IsIndex f.indexes

module _ (f : IntFile) (server : Str) (valid : IsTable f server) where
  abbrev header_lines : List Str
  header_lines = render_header f server

  abbrev field_lines_of : List Str
  field_lines_of = render_all render_field f.fields

  abbrev index_lines_of : List Str
  index_lines_of = render_all render_index f.indexes

  header_each : All HeaderLine header_lines
  header_each = let h = render_header-HeaderLine f server valid.names in h.each

  field_each : All FieldLine field_lines_of
  field_each =
      All-render_all FieldLine IsField render_field f.fields render_field-FieldLine valid.fields

  index_each : All IndexLine index_lines_of
  index_each =
      All-render_all IndexLine IsIndex render_index f.indexes (λ ix h. render_index-IndexLine ix)
        valid.indexes

  OneLine-each : All OneLine (header_lines ++ field_lines_of ++ index_lines_of)
  OneLine-each =
      All-app OneLine (header_lines ++ field_lines_of) index_lines_of
        (All-app OneLine header_lines field_lines_of
          (All-weaken HeaderLine OneLine header_lines (λ l h. h.one_line) header_each)
          (All-weaken FieldLine OneLine field_lines_of (λ l h. h.one_line) field_each))
        (All-weaken IndexLine OneLine index_lines_of (λ l h. h.one_line) index_each)

  rendered_lines : lines (render_int f server) ≡ header_lines ++ (field_lines_of ++ index_lines_of)
  unfolding render_int
  rendered_lines =
      lines-unlines (header_lines ++ field_lines_of ++ index_lines_of) OneLine-each
      ∙ append_assoc header_lines field_lines_of index_lines_of

  fields_back : parse_fields (render_int f server) ≡ f.fields
  unfolding parse_fields
  fields_back =
      ap (λ ls. flush_field (fields_loop ls first_field_state)) rendered_lines
      ∙ ap flush_field (
          fields_loop-skips header_lines (field_lines_of ++ index_lines_of) first_field_state
            (All-weaken HeaderLine SkipsFields header_lines (λ l h. h.by_fields) header_each))
      ∙ all_field_lines f.fields index_lines_of first_field_state valid.fields (λ s.
        ap (λ ls. fields_loop ls s) (sym (append-nil index_lines_of))
        ∙ fields_loop-skips index_lines_of [] s
            (All-weaken IndexLine SkipsFields index_lines_of (λ l h. h.skipped) index_each))

  indexes_back : parse_indexes (render_int f server) ≡ all_stored f.indexes
  unfolding parse_indexes
  indexes_back =
      ap (λ ls. flush_index (indexes_loop ls first_index_state)) rendered_lines
      ∙ ap flush_index (
          indexes_loop-skips header_lines (field_lines_of ++ index_lines_of) first_index_state
            (All-weaken HeaderLine SkipsIndexes header_lines (λ l h. h.by_indexes) header_each))
      ∙ ap flush_index (
          indexes_loop-skips field_lines_of index_lines_of first_index_state
            (All-weaken FieldLine SkipsIndexes field_lines_of (λ l h. h.skipped) field_each))
      ∙ all_index_lines f.indexes first_index_state valid.indexes

-- Its indexes are in the order of their numbers, and no field names an index when none is written.
pub record KeepsIndexes (f : IntFile) : Type 0 where
  pub rising : Rising 0 f.indexes
  pub own :
      (is_empty (all_stored f.indexes) ≡ false)
      ⊎ All (λ (x : IntField). x.field_index ≡ none) f.fields

no_field_index :
    (fields : List IntField) (ixs : List IntIndex)
    → All (λ (x : IntField). x.field_index ≡ none) fields
    → index_fields fields ixs ≡ ixs
no_field_index [] ixs h = refl
no_field_index (x ∷ fields) ixs h = rw h.0 (no_field_index fields ixs h.1)

or_built-own :
    (ixs : List IntIndex) (fields : List IntField)
    → (is_empty ixs ≡ false) ⊎ All (λ (x : IntField). x.field_index ≡ none) fields
    → or_built ixs fields ≡ ixs
unfolding build_indexes_from_field_index
or_built-own [] fields (inl e) = cc
or_built-own [] fields (inr h) = no_field_index fields [] h
or_built-own (ix ∷ ixs) fields h = refl

-- A table that was read has the fields and the stored indexes of another.
abbrev pub Reads : IntFile → IntResult → Type 0
Reads f none = ⊥
Reads f (some g) = (g.fields ≡ f.fields) × (g.indexes ≡ all_stored f.indexes)

sorted_back :
    (f : IntFile) (server : Str) (valid : IsTable f server)
    → KeepsIndexes f
    → sort_by_num
        (or_built (parse_indexes (render_int f server)) (parse_fields (render_int f server)))
      ≡ all_stored f.indexes
sorted_back f server valid keeps =
    ap (λ ixs. sort_by_num (or_built ixs (parse_fields (render_int f server))))
      (indexes_back f server valid)
    ∙ ap (λ fs. sort_by_num (or_built (all_stored f.indexes) fs)) (fields_back f server valid)
    ∙ ap sort_by_num (or_built-own (all_stored f.indexes) f.fields keeps.own)
    ∙ sort-Rising 0 (all_stored f.indexes) (all_stored-Rising 0 f.indexes keeps.rising)

name_lines :
    (f : IntFile) (server : Str)
    → (before : List Str) × (behind : List Str) × (render_header f server
        ≡ before ++ kv (codes "TABLE_NAME") f.table_name ∷ behind)
name_lines f server = (_, _, refl)

-- A table that is written as an INT text is read back: `parse` succeeds, and its result has the
-- same fields in the same order, and the table's indexes that have segments, except that they are
-- counted by their segments and that the null values of segments are lost. This holds for tables
-- whose numbers fit their types, whose names and defaults are on one line and neither start nor end
-- by a space, a schema, a database and a server may be missing, whose segments refer to fields
-- other than 0, whose indexes are in the order of their numbers, and whose fields name no index
-- unless an index has a segment.
pub parse-render_int :
    (f : IntFile) (server source_file : Str)
    → IsTable f server
    → KeepsIndexes f
    → Reads f (parse (render_int f server) source_file)
unfolding parse
parse-render_int f server source_file valid keeps =
    let (before, behind, split) = name_lines f server in
    let names = valid.names in
    let rest = field_lines_of f server valid ++ index_lines_of f server valid in
    let (name, at_name) =
      name_found (render_int f server) f.table_name before (behind ++ rest) names.table_name (
        rendered_lines f server valid
        ∙ ap (λ ls. ls ++ rest) split
        ∙ append_assoc before (kv (codes "TABLE_NAME") f.table_name ∷ behind) rest) in
    rw at_name (fields_back f server valid, sorted_back f server valid keeps)
