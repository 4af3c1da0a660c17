-- ===== src/IntText/Table.antt =====
-- int.rs, `parse`: the table of an INT text.
use wx_btrieve_sql_driver.Base.{
  Bool, List, Option, Str, [], and_then, codes, eq_ignore_ascii_case, false, if◌then◌else◌, lookup,
  ltb, nat_eq, none, not, parse_unsigned, some, str_eq, text_eq, trim, unwrap_or, ℕ, ◌++◌, ◌+◌,
  ◌==◌, ◌∷◌,
}
use wx_btrieve_sql_driver.Importer.Schema.{IndexSegment, IntFile, IntIndex}
use wx_btrieve_sql_driver.IntText.Lines.{parse_kv_lines}
use wx_btrieve_sql_driver.IntText.Parse.{parse_fields, parse_indexes, parse_u32}
use wx_btrieve_sql_driver.Schema.{IntField}
use wx_btrieve_sql_driver.Sql.KeyWhere.Formula.{test}

abbrev pub IntResult : Type 0
IntResult = Option IntFile

-- A field into the index that it names, kept in the order of the numbers.
abbrev pub index_segment_of : IntField → IndexSegment
index_segment_of f = record { field_num = f.num; attrs = 0; descending = false; null_value = 0 }

abbrev with_segment : IntIndex → IntField → IntIndex
with_segment ix f = record ix {
  num_segments = ix.num_segments + 1;
  segments = ix.segments ++ index_segment_of f ∷ [];
}

unfoldable pub add_to_index : ℕ → IntField → List IntIndex → List IntIndex
add_to_index n f [] = record { num = n; num_segments = 1; segments = index_segment_of f ∷ [] } ∷ []
add_to_index n f (ix ∷ ixs) =
    let rest = add_to_index n f ixs in
    if ix.num == n
    then with_segment ix f ∷ ixs
    else if ltb ix.num n
    then ix ∷ rest
    else record { num = n; num_segments = 1; segments = index_segment_of f ∷ [] } ∷ ix ∷ ixs

abbrev pub index_fields : List IntField → List IntIndex → List IntIndex
index_fields [] ixs = ixs
index_fields (f ∷ fs) ixs = elim f.field_index [
  | none ↦ index_fields fs ixs
  | some n ↦ index_fields fs (add_to_index n f ixs)
]

unfoldable pub build_indexes_from_field_index : List IntField → List IntIndex
unfolding add_to_index
build_indexes_from_field_index fields = index_fields fields []

-- `sort_by_key(|ix| ix.num)`, which is stable
unfoldable pub insert_by_num : IntIndex → List IntIndex → List IntIndex
insert_by_num ix [] = ix ∷ []
insert_by_num ix (j ∷ js) =
    let rest = insert_by_num ix js in if ltb j.num ix.num then j ∷ rest else ix ∷ j ∷ js

unfoldable pub sort_by_num : List IntIndex → List IntIndex
unfolding insert_by_num
sort_by_num [] = []
sort_by_num (ix ∷ ixs) = insert_by_num ix (sort_by_num ixs)

abbrev text_of_key : List (Str × Str) → Str → Str
text_of_key kvs key = unwrap_or (lookup key kvs) []

abbrev number_of_key : List (Str × Str) → Str → (Str → Option ℕ) → ℕ
number_of_key kvs key read = unwrap_or (and_then (lookup key kvs) read) 0

abbrev flag_of_key : List (Str × Str) → Str → (Str → Bool) → Bool
flag_of_key kvs key test = elim (lookup key kvs) [ none ↦ false | some s ↦ test s ]

abbrev is_yes : Str → Bool
is_yes s = eq_ignore_ascii_case (trim s) (codes "YES")

abbrev is_not_0 : Str → Bool
is_not_0 s = not (str_eq (trim s) (codes "0"))

abbrev pub or_built : List IntIndex → List IntField → List IntIndex
or_built [] fields = build_indexes_from_field_index fields
or_built (ix ∷ ixs) fields = ix ∷ ixs

-- `parse`; `none` when TABLE_NAME is missing.
unfoldable pub parse : Str → Str → IntResult
unfolding parse_kv_lines parse_fields parse_indexes sort_by_num build_indexes_from_field_index
parse input source_file =
    let kvs = parse_kv_lines input in
    let u16 = parse_unsigned 65535 in
    let fields = parse_fields input in
    and_then (lookup (codes "TABLE_NAME") kvs) (λ name. some (record {
      table_name = name;
      schema_name = text_of_key kvs (codes "SCHEMA_NAME");
      db_name = text_of_key kvs (codes "DATABASE_SPACE_NAME");
      record_length = number_of_key kvs (codes "LOGICAL_RECORD_LENGTH") parse_u32;
      page_size = number_of_key kvs (codes "PAGE_SIZE") u16;
      file_flags = number_of_key kvs (codes "FILE_FLAGS") u16;
      ignore_null_values = flag_of_key kvs (codes "IGNORE_NULL_VALUES") is_not_0;
      trim_string_fields = flag_of_key kvs (codes "TRIM_STRING_FIELDS") is_not_0;
      translate_oem_to_ansi = flag_of_key kvs (codes "TRANSLATE_OEM_TO_ANSI") is_not_0;
      primary_index = and_then (lookup (codes "PRIMARY_INDEX") kvs) (λ s. parse_u32 (trim s));
      local_cache = flag_of_key kvs (codes "LOCAL_CACHE") is_yes;
      driver_name = text_of_key kvs (codes "DRIVER_NAME");
      server_name = text_of_key kvs (codes "SERVER_NAME");
      permanent_int = flag_of_key kvs (codes "PERMANENT_INT") is_yes;
      number_df_fields = number_of_key kvs (codes "NUMBER_DF_FIELDS") (λ s. parse_u32 (trim s));
      source_file = source_file;
      source_path = [];
      source_dir = [];
      fields = fields;
      indexes = sort_by_num (or_built (parse_indexes input) fields);
    }))
