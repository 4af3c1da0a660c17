-- ===== src/IntText/Render.antt =====
-- export.rs, `render_int`: the text is the lines that are pushed, each with its line feed.
use wx_btrieve_sql_driver.Base.{
  Bool, List, Option, Str, [], codes, false, is_empty, length, ltb, none, not, show_int, show_nat,
  signed, some, true, ℕ, ◌++◌, ◌^◌, ◌∷◌,
}
use wx_btrieve_sql_driver.Importer.Schema.{IndexSegment, IntFile, IntIndex}
use wx_btrieve_sql_driver.Schema.{IntField}
use wx_btrieve_sql_driver.Sql.KeyWhere.Formula.{render}

abbrev pub unlines : List Str → Str
unlines [] = []
unlines (l ∷ ls) = l ++ 10 ∷ unlines ls

-- A key with its value.
abbrev pub kv : Str → Str → Str
kv key val = key ++ 32 ∷ val

abbrev pub line_if : Bool → Str → List Str
line_if true l = l ∷ []
line_if false l = []

-- `{}` on an `i32`
unfoldable pub show_i32 : ℕ → Str
unfolding show_int
show_i32 n = show_int (signed (2 ^ 31) n)

abbrev pub line_some : {A : Type 0} → Option A → (A → Str) → List Str
line_some none l = []
line_some (some a) l = l a ∷ []

abbrev pub render_field : IntField → List Str
render_field f =
    kv (codes "FIELD_NUMBER") (show_nat f.num)
    ∷ kv (codes "FIELD_NAME") f.name
    ∷ kv (codes "FIELD_NATIVE_TYPE") (show_i32 f.native_type)
    ∷ kv (codes "FIELD_NATIVE_LENGTH") (show_nat f.length)
    ∷ kv (codes "FIELD_NATIVE_OFFSET") (show_nat f.offset)
    ∷ (line_some f.field_index (λ i. kv (codes "FIELD_INDEX") (show_nat i))
        ++ line_some f.default_value (λ d. kv (codes "FIELD_DEFAULT_VALUE") d)
        ++ [] ∷ [])

abbrev pub render_segment : IndexSegment → List Str
render_segment seg =
    kv (codes "INDEX_SEGMENT_FIELD") (show_nat seg.field_num)
    ∷ (line_if seg.descending (codes "INDEX_SEGMENT_DIRECTION DESCENDING")
        ++ kv (codes "INDEX_SEGMENT_FLAG") (show_nat seg.attrs) ∷ [])

abbrev pub render_segments : List IndexSegment → List Str
render_segments [] = []
render_segments (seg ∷ segs) = render_segment seg ++ render_segments segs

abbrev pub render_index : IntIndex → List Str
render_index ix =
    kv (codes "INDEX_NUMBER") (show_nat ix.num)
    ∷ kv (codes "INDEX_NUMBER_SEGMENTS") (show_nat (length ix.segments))
    ∷ (render_segments ix.segments
        ++ codes "INDEX_SEGMENT_FIELD 0" ∷ codes "INDEX_SEGMENT_FLAG -1" ∷ [] ∷ [])

abbrev pub render_header : IntFile → Str → List Str
render_header f server =
    line_if (not (is_empty server)) (codes "DRIVER_NAME SQL_BTR")
    ++ line_if (not (is_empty server)) (kv (codes "SERVER_NAME") server)
    ++ line_if (not (is_empty f.db_name)) (kv (codes "DATABASE_SPACE_NAME") f.db_name)
    ++ kv (codes "TABLE_NAME") f.table_name
      ∷ kv (codes "SCHEMA_NAME") f.schema_name
      ∷ kv (codes "LOGICAL_RECORD_LENGTH") (show_nat f.record_length)
      ∷ (line_if (ltb 0 f.page_size) (kv (codes "PAGE_SIZE") (show_nat f.page_size))
          ++ line_if (ltb 0 f.file_flags) (kv (codes "FILE_FLAGS") (show_nat f.file_flags))
          ++ line_if f.ignore_null_values (codes "IGNORE_NULL_VALUES 1")
          ++ line_if f.trim_string_fields (codes "TRIM_STRING_FIELDS 1")
          ++ line_if f.translate_oem_to_ansi (codes "TRANSLATE_OEM_TO_ANSI 1")
          ++ line_if f.local_cache (codes "LOCAL_CACHE YES")
          ++ line_some f.primary_index (λ i. kv (codes "PRIMARY_INDEX") (show_nat i))
          ++ [] ∷ [])

abbrev pub render_all : {A : Type 0} → (A → List Str) → List A → List Str
render_all render [] = []
render_all render (x ∷ xs) = render x ++ render_all render xs

unfoldable pub render_int : IntFile → Str → Str
unfolding show_nat show_i32
render_int f server = unlines (
    render_header f server ++ render_all render_field f.fields ++ render_all render_index f.indexes)
