-- ===== src/IntText/Ddl.antt =====
-- export.rs: the CREATE TABLE of SQL Server, the name of an INT file, and the settings file.
use wx_btrieve_sql_driver.Base.{
  Bool, List, Str, [], any, codes, false, filter_map, find, if◌then◌else◌, is_empty, join, keep,
  map, max, none, not, show_nat, some, str_eq, to_ascii_uppercase, true, ℕ, ◌%◌, ◌*◌, ◌++◌, ◌-◌,
  ◌==◌, ◌^◌, ◌||◌, ◌∷◌,
}
use wx_btrieve_sql_driver.Importer.Schema.{IndexSegment, IntFile, IntIndex}
use wx_btrieve_sql_driver.Schema.{IntField}

-- `btr_to_sql`
abbrev char_type : ℕ → Str
char_type len = codes "VARCHAR(" ++ show_nat len ++ codes ")"

abbrev raw_type : ℕ → Str
raw_type len = codes "VARBINARY(" ++ show_nat len ++ codes ")"

abbrev decimal_type : ℕ → Str → Str
decimal_type digits scale = codes "DECIMAL(" ++ show_nat digits ++ codes ", " ++ scale ++ codes ")"

abbrev float_type : ℕ → Str
float_type len = if len == 4 then codes "REAL" else codes "FLOAT"

abbrev integer_type : ℕ → Str
integer_type len =
    if len == 1
    then codes "TINYINT"
    else if len == 2
    then codes "SMALLINT"
    else if len == 4
    then codes "INT"
    else if len == 8
    then codes "BIGINT"
    else raw_type len

abbrev unsigned_type : ℕ → Str
unsigned_type len =
    if len == 2 then codes "INT" else if len == 4 then codes "BIGINT" else raw_type len

-- `(length * 2).saturating_sub(1)`, whose product wraps
abbrev digit_count : ℕ → ℕ
digit_count len = len * 2 % 2 ^ 32 - 1

unfoldable pub btr_to_sql : ℕ → ℕ → Str
unfolding show_nat
btr_to_sql t len =
    if any (λ k. k == t) (0 ∷ 8 ∷ 10 ∷ 11 ∷ 17 ∷ 18 ∷ [])
    then char_type len
    else if t == 1
    then integer_type len
    else if t == 2 || t == 9
    then float_type len
    else if t == 3
    then codes "DATE"
    else if t == 4
    then codes "TIME(0)"
    else if t == 5
    then decimal_type (max (digit_count len) 1) (codes "0")
    else if t == 6
    then decimal_type (max (digit_count len) 5) (codes "4")
    else if t == 7
    then codes "BIT"
    else if t == 14
    then unsigned_type len
    else if t == 15
    then codes "INT"
    else if t == 19
    then codes "DECIMAL(19, 4)"
    else if t == 20
    then codes "DATETIME2(7)"
    else raw_type len

-- The reference to the table; its names are not escaped.
abbrev bracketed : Str → Str
bracketed name = codes "[" ++ name ++ codes "]"

abbrev ddl_ref : IntFile → Str
ddl_ref f =
    if is_empty f.schema_name
    then bracketed f.table_name
    else bracketed f.schema_name ++ codes "." ++ bracketed f.table_name

abbrev ddl_column : IntField → Str
ddl_column f =
    codes "    "
    ++ bracketed f.name
    ++ codes " "
    ++ btr_to_sql f.native_type f.length
    ++ codes " NULL"

abbrev ddl_columns : IntFile → Bool → List Str
ddl_columns f true = codes "    [btrv_row] BIGINT IDENTITY(1,1) NOT NULL" ∷ map ddl_column f.fields
ddl_columns f false = map ddl_column f.fields

-- The direction is that of the first segment of the field.
abbrev is_descending : IntIndex → ℕ → Bool
is_descending ix num = elim (find (λ (s : IndexSegment). s.field_num == num) ix.segments) [
  | none ↦ false
  | some s ↦ s.descending
]

abbrev ddl_key : IntIndex → IntField → Str
ddl_key ix f = bracketed f.name ++ (if is_descending ix f.num then codes " DESC" else [])

abbrev ddl_keys : IntFile → IntIndex → List Str
ddl_keys f ix = map (ddl_key ix) (
    filter_map (λ (s : IndexSegment). find (λ (fld : IntField). fld.num == s.field_num) f.fields)
      ix.segments)

abbrev any_dups : IntIndex → Bool
any_dups ix = any (λ (s : IndexSegment). s.attrs % 2 == 1) ix.segments

abbrev ddl_index : IntFile → IntIndex → Str
ddl_index f ix =
    if is_empty ix.segments || is_empty (ddl_keys f ix)
    then []
    else codes "CREATE "
      ++ (if any_dups ix then [] else codes "UNIQUE ")
      ++ codes "INDEX [IX_"
      ++ f.table_name
      ++ codes "_"
      ++ show_nat ix.num
      ++ codes "] ON "
      ++ ddl_ref f
      ++ codes " ("
      ++ join (codes ", ") (ddl_keys f ix)
      ++ codes ");\n"

unfoldable pub render_ddl : IntFile → Bool → Str
unfolding btr_to_sql show_nat
render_ddl f add_recnum =
    codes "-- Source: "
    ++ f.source_file
    ++ codes "  reclen="
    ++ show_nat f.record_length
    ++ codes " page_size="
    ++ show_nat f.page_size
    ++ codes "\nCREATE TABLE "
    ++ ddl_ref f
    ++ codes " (\n"
    ++ join (codes ",\n") (ddl_columns f add_recnum)
    ++ codes "\n);\n"
    ++ join [] (map (ddl_index f) f.indexes)

unfoldable pub int_filename : IntFile → Str
int_filename f =
    let named = keep (λ s. not (is_empty s)) (f.db_name ∷ f.schema_name ∷ []) in
    join (codes ".") (map to_ascii_uppercase (named ++ f.table_name ∷ [])) ++ codes ".INT"

-- `render_mds`, with the section so far.
abbrev pub render_mds_from : Str → List (Str × Str × Str) → Str
render_mds_from section [] = []
render_mds_from section ((sec, key, value) ∷ rows) =
    (if str_eq sec section then [] else bracketed sec ++ codes "\n")
    ++ key
    ++ codes "="
    ++ value
    ++ codes "\n"
    ++ render_mds_from sec rows

unfoldable pub render_mds : List (Str × Str × Str) → Str
render_mds rows = render_mds_from [] rows
