-- ===== src/Client/Discovery.antt =====
-- state.rs `resolve_config` and `dir_from_path`, table_lookup.rs, and sql.rs
-- `discover_table_meta`: the metadata of the table that a path names.
pub mod Tiling
use Prim.Native.String.{String}
use wx_btrieve_sql_driver.Base.{
  Bool, List, Option, Str, [], and_then, codes, eq_ignore_ascii_case, false, get_or, if◌then◌else◌,
  is_empty, length, lookup, map, max, min, nat_eq, none, not, or_else, parse_unsigned, str_eq,
  text_eq, to_ascii_lowercase, to_ascii_uppercase, trim, true, unwrap_or, ℕ, ◌%◌, ◌++◌, ◌+◌, ◌-◌,
  ◌==◌, ◌^◌, ◌||◌, ◌∷◌,
}
use wx_btrieve_sql_driver.Client.{fetch_with}
use wx_btrieve_sql_driver.Dialect.{Backend, mssql, postgres, sqlite}
use wx_btrieve_sql_driver.Schema.{IntField, TableMeta}
use wx_btrieve_sql_driver.Status.{btr_file_not_found}
use wx_btrieve_sql_driver.World.{M, Paths, Settings, World, gets, leave_if, ◌>>◌, ◌>>=◌, ◌>>◌}

abbrev global_config : Settings → Str → Str
global_config s ukey =
    if str_eq ukey (codes "DATABASE")
    then s.database
    else if str_eq ukey (codes "SCHEMA")
    then s.schema
    else if str_eq ukey (codes "SERVER")
    then s.server
    else if str_eq ukey (codes "USER")
    then s.user
    else if str_eq ukey (codes "PASSWORD")
    then s.pass
    else if str_eq ukey (codes "DRIVER")
    then s.driver
    else if str_eq ukey (codes "NETWORK")
    then s.network
    else if str_eq ukey (codes "RECNUM_COLUMN")
    then s.recnum_col_default
    else []

-- The directory's own setting, then the global one.
unfoldable pub resolve_config : Settings → Str → Str → Str
resolve_config s dir key =
    let ukey = to_ascii_uppercase key in
    unwrap_or (and_then (lookup (to_ascii_uppercase dir) s.dir_configs) (lookup ukey))
      (global_config s ukey)

unfoldable pub dir_from_path : Paths → Str → Str
dir_from_path paths path = to_ascii_uppercase (unwrap_or (paths.parent path) [])

unfoldable pub table_name_from_path : Paths → Str → Str
table_name_from_path paths path = to_ascii_uppercase (unwrap_or (paths.file_stem path) path)

abbrev pub normalize_key : Str → Str
normalize_key s =
    map (λ c. if c == 92 || c == 47 || c == 46 then 95 else c) (to_ascii_uppercase (trim s))

-- The database that scopes the lookup: only MSSQL has one.
abbrev pub scope_of : Settings → Str → Str
scope_of s dir = elim s.backend [
  | mssql ↦ to_ascii_uppercase (resolve_config s dir (codes "DATABASE"))
  | postgres ↦ []
  | sqlite ↦ []
]

abbrev scoped_lookup : List (Str × TableMeta) → Str → Str → Option TableMeta
scoped_lookup tables [] k = lookup k tables
scoped_lookup tables (c ∷ cs) k =
    let scoped = λ (name : Str). (c ∷ cs) ++ codes ":" ++ name in
    or_else (lookup (scoped k) tables) (lookup (scoped (normalize_key k)) tables)

unfoldable pub get_table_meta_for_path : Str → Str → World → Option TableMeta
unfolding resolve_config dir_from_path
get_table_meta_for_path name path w =
    let k = to_ascii_uppercase (trim name) in
    if is_empty k
    then none
    else scoped_lookup w.tables (scope_of w.settings (dir_from_path w.paths path)) k

-- The native type and length of a SQL column. `to_lowercase` matters on ASCII letters alone here.
unfoldable pub column_type : Str → ℕ → ℕ × ℕ
column_type dtype maxlen =
    let ends = λ (s : String). str_eq dtype (codes s) in
    let clamped = min (max maxlen 1) 255 in
    if ends "char" || ends "nchar"
    then (0, max maxlen 1)
    else if ends "varchar" || ends "nvarchar"
    then (0, clamped)
    else if ends "int"
    then (1, 4)
    else if ends "smallint"
    then (1, 2)
    else if ends "tinyint"
    then (14, 1)
    else if ends "bigint"
    then (1, 8)
    else if ends "decimal" || ends "numeric"
    then (5, 8)
    else if ends "float" || ends "real"
    then (2, 8)
    else if ends "bit"
    then (7, 1)
    else if ends "datetime" || ends "datetime2"
    then (3, 8)
    else if ends "date"
    then (3, 4)
    else (0, clamped)

abbrev pub cell : List Str → ℕ → Str
cell row i = trim (get_or row i [])

-- The loop over the columns: the fields, and the offset behind the last one, a `u32` that wraps.
unfoldable pub discover_fields : List (List Str) → ℕ → ℕ → List IntField × ℕ
unfolding column_type
discover_fields [] fnum offset = ([], offset)
discover_fields (row ∷ rows) fnum offset =
    let name = cell row 0 in
    let maxlen = unwrap_or (parse_unsigned (2 ^ 32 - 1) (cell row 2)) 0 in
    let kind = column_type (to_ascii_lowercase (cell row 1)) maxlen in
    let skipped = discover_fields rows fnum offset in
    let kept = discover_fields rows (fnum + 1) ((offset + kind.1) % 2 ^ 32) in
    let field : IntField = record {
      num = fnum;
      name = name;
      native_type = kind.0;
      length = kind.1;
      offset = offset;
      field_index = none;
      default_value = none;
    } in
    if eq_ignore_ascii_case name (codes "MDS_RECNUM") then skipped else (field ∷ kept.0, kept.1)

abbrev if_blank : Str → Str → Str
if_blank [] d = d
if_blank (c ∷ cs) d = c ∷ cs

abbrev pub column_query : Str → Str → Str → Str
column_query db sc tbl =
    codes
      "SELECT COLUMN_NAME, DATA_TYPE, COALESCE(CHARACTER_MAXIMUM_LENGTH,0), ORDINAL_POSITION FROM ["
    ++ db
    ++ codes "].INFORMATION_SCHEMA.COLUMNS WHERE TABLE_SCHEMA='"
    ++ sc
    ++ codes "' AND TABLE_NAME='"
    ++ tbl
    ++ codes "' ORDER BY ORDINAL_POSITION"

abbrev discovered : World → Str → Str → Str → Str → List IntField × ℕ → TableMeta
discovered w table_name dir db sc found = record {
  table_name = table_name;
  schema_name = sc;
  db_name = db;
  record_length = found.1;
  page_size = 4096;
  file_flags = 0;
  fields = found.0;
  indexes = [];
  recnum_col =
      if_blank (resolve_config w.settings dir (codes "RECNUM_COLUMN")) (codes "MDS_RECNUM");
  ignore_null_values = true;
  trim_string_fields = w.settings.trim_strings;
  translate_oem_to_ansi = false;
  primary_index = none;
  local_cache = false;
}

abbrev pub is_mssql : Backend → Bool
is_mssql mssql = true
is_mssql postgres = false
is_mssql sqlite = false

unfoldable pub meta_of_columns : Str → Str → Str → Str → List (List Str) → M TableMeta
unfolding discover_fields
meta_of_columns table_name dir db sc rows = do
  leave_if (is_empty rows) btr_file_not_found
  gets (λ w. discovered w table_name dir db sc (discover_fields rows 1 0))

abbrev pub schema_of : World → Str → Str
schema_of w dir = if_blank (resolve_config w.settings dir (codes "SCHEMA")) (codes "dbo")

unfoldable pub read_columns : Str → Str → M TableMeta
unfolding resolve_config dir_from_path meta_of_columns fetch_with
read_columns table_name open_path = do
  dir ← gets (λ w. dir_from_path w.paths open_path)
  db ← gets (λ w. resolve_config w.settings dir (codes "DATABASE"))
  sc ← gets (λ w. schema_of w dir)
  rows ← fetch_with (column_query db sc table_name) [] 4 200
  meta_of_columns table_name dir db sc rows

unfoldable pub discover_table_meta : Str → Str → M TableMeta
unfolding read_columns
discover_table_meta table_name open_path = do
  b ← gets (λ w. w.settings.backend)
  leave_if (not (is_mssql b)) btr_file_not_found
  read_columns table_name open_path
