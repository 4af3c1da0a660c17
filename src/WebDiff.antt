-- ===== src/WebDiff.antt =====
-- crates/wxbtrv-web/src/api/diff.rs: a table's fields against the columns that the backend has, and
-- the statements that bring the backend up to date. The columns are what the backend's catalogue
-- gives.
pub mod Names
pub mod Agreement
use mathlib.Core.List.{reverse}
use wx_btrieve_sql_driver.Base.{
  Bool, List, Option, Str, [], and_then, any, codes, false, find, if◌then◌else◌, keep, leb, length,
  map, none, not, slice, some, str_eq, take_while, to_ascii_uppercase, trim, true, ℕ, ◌&&◌, ◌++◌,
  ◌+◌, ◌-◌, ◌==◌, ◌∷◌,
}
use wx_btrieve_sql_driver.Dialect.{Backend, mssql, postgres, sqlite}
use wx_btrieve_sql_driver.Importer.Schema.{IntFile}
use wx_btrieve_sql_driver.Importer.Sqlsrv.{ident, sql_type_str, table_ref}
use wx_btrieve_sql_driver.Schema.{IntField}

pub record BackendColumn : Type 0 where
  pub name : Str
  pub data_type : Str
  pub nullable : Bool

-- `split_once`: what stands before a character, or the whole.
abbrev pub before_char : ℕ → Str → Str
before_char c s = take_while (λ x. not (x == c)) s

abbrev is_one_of : Str → List Str → Bool
is_one_of s names = any (str_eq s) names

abbrev pub canonical : Backend → Str → Str
canonical sqlite t =
    if is_one_of t
      (codes "INT" ∷ codes "TINYINT" ∷ codes "SMALLINT" ∷ codes "BIGINT" ∷ codes "BIT" ∷ [])
    then codes "INTEGER"
    else if is_one_of t
        (codes "VARCHAR" ∷ codes "CHAR" ∷ codes "NVARCHAR" ∷ codes "DATETIME" ∷ codes "DATE" ∷ [])
    then codes "TEXT"
    else t
canonical postgres t =
    if str_eq t (codes "DATETIME")
    then codes "TIMESTAMP"
    else if str_eq t (codes "VARCHAR")
    then codes "CHARACTER VARYING"
    else if is_one_of t (codes "INT" ∷ codes "INTEGER" ∷ [])
    then codes "INTEGER"
    else if is_one_of t (codes "BIT" ∷ codes "TINYINT" ∷ [])
    then codes "SMALLINT"
    else t
canonical mssql t = t

abbrev keeps_length : Backend → Str → Bool
keeps_length mssql t =
    is_one_of t (codes "VARCHAR" ∷ codes "CHAR" ∷ codes "NVARCHAR" ∷ codes "NCHAR" ∷ [])
keeps_length postgres t = false
keeps_length sqlite t = false

-- From the first `(` up to the first `)`; `none` when no `)` follows, where the slice panics.
abbrev length_part : Str → Option Str
length_part raw =
    if any (λ c. c == 41) raw
    then (let at = length (before_char 40 raw) in
        let close = length (before_char 41 raw) + 1 in
        if leb at close then some (slice at (close - at) raw) else none)
    else none

-- `normalize_type`; `none` where it panics.
unfoldable pub normalize_type : Backend → Str → Option Str
unfolding trim
normalize_type b t =
    let raw = to_ascii_uppercase (trim t) in
    let canon = canonical b (before_char 40 (before_char 32 raw)) in
    if keeps_length b canon && any (λ c. c == 40) raw
    then and_then (length_part raw) (λ len. some (canon ++ len))
    else some canon

unfoldable pub types_match : Backend → Str → Str → Option Bool
unfolding normalize_type
types_match b expected actual =
    and_then (normalize_type b expected)
      (λ e. and_then (normalize_type b actual) (λ a. some (str_eq e a)))

-- A key of the two maps, and whether a column has it.
abbrev pub has_name : Str → BackendColumn → Bool
has_name key c = str_eq (to_ascii_uppercase c.name) key

abbrev pub is_named : Str → IntField → Bool
is_named key f = str_eq (to_ascii_uppercase f.name) key

abbrev pub in_backend : List BackendColumn → IntField → Bool
in_backend columns f = any (has_name (to_ascii_uppercase f.name)) columns

abbrev pub in_project : List IntField → BackendColumn → Bool
in_project fields c = any (is_named (to_ascii_uppercase c.name)) fields

-- The column that a name has in the map: the last of those with it.
abbrev pub column_named : Str → List BackendColumn → Option BackendColumn
column_named key columns = find (has_name key) (reverse columns)

-- The lists of names that `diff` returns.
pub record DiffLists : Type 0 where
  pub matched : List Str
  pub missing : List Str
  pub mismatches : List Str

abbrev pub sort_column : IntField → Option Bool → DiffLists → Option DiffLists
sort_column f none lists = none
sort_column f (some true) lists = some (record lists { matched = f.name ∷ lists.matched })
sort_column f (some false) lists = some (record lists { mismatches = f.name ∷ lists.mismatches })

abbrev pub place_column : Backend → IntField → Option BackendColumn → DiffLists → Option DiffLists
place_column b f none lists = some (record lists { missing = f.name ∷ lists.missing })
place_column b f (some c) lists =
    sort_column f (types_match b (sql_type_str b f []) c.data_type) lists

-- The loop over the project's columns, for a table that exists; `none` where it panics.
unfoldable pub project_loop : Backend → List BackendColumn → List IntField → Option DiffLists
unfolding types_match sql_type_str
project_loop b columns [] = some (record { matched = []; missing = []; mismatches = [] })
project_loop b columns (f ∷ fs) =
    and_then (project_loop b columns fs)
      (place_column b f (column_named (to_ascii_uppercase f.name) columns))

-- The loop over the backend's columns.
abbrev pub extra_loop : List IntField → List BackendColumn → List Str
extra_loop fields [] = []
extra_loop fields (c ∷ cs) =
    let rest = extra_loop fields cs in if in_project fields c then rest else c.name ∷ rest

-- The columns that `apply` adds and drops, and its statements.
abbrev pub to_add : List BackendColumn → List IntField → List IntField
to_add columns fields = keep (λ f. not (in_backend columns f)) fields

abbrev pub to_drop : List IntField → List BackendColumn → List BackendColumn
to_drop fields columns = keep (λ c. not (in_project fields c)) columns

abbrev pub add_statement : Backend → IntFile → IntField → Str
add_statement b table f =
    codes "ALTER TABLE "
    ++ table_ref b table
    ++ codes " ADD COLUMN "
    ++ ident b f.name
    ++ codes " "
    ++ sql_type_str b f []
    ++ codes " NULL"

abbrev pub drop_statement : Backend → IntFile → BackendColumn → Str
drop_statement b table c =
    codes "ALTER TABLE " ++ table_ref b table ++ codes " DROP COLUMN " ++ ident b c.name

unfoldable pub apply_statements : Backend → IntFile → List BackendColumn → Bool → Bool → List Str
unfolding table_ref ident sql_type_str
apply_statements b table columns add_missing drop_extra =
    (if add_missing then map (add_statement b table) (to_add columns table.fields) else [])
    ++ (if drop_extra then map (drop_statement b table) (to_drop table.fields columns) else [])
