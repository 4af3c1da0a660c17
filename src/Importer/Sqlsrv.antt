-- ===== src/Importer/Sqlsrv.antt =====
-- crates/btr-import/src/sqlsrv.rs: the SQL that the importer sends, and the values that it binds. Of
-- the backends, `load_config` gives these three.
pub mod Values
pub mod Unquoting
pub mod Decimals
pub mod Rebound
use wx_btrieve_sql_driver.Base.{
  List, Str, [], any, codes, if◌then◌else◌, is_empty, join, length, map, max, replace_char,
  show_nat, str_eq, suc, zero, ℕ, ◌++◌, ◌+◌, ◌-◌, ◌==◌, ◌||◌, ◌∷◌,
}
use wx_btrieve_sql_driver.Dialect.{Backend, mssql, param_marker, postgres, sqlite}
use wx_btrieve_sql_driver.Importer.Codec.{sql_type}
use wx_btrieve_sql_driver.Importer.Schema.{IntFile}
use wx_btrieve_sql_driver.Record.Slices.{type_lstring}
use wx_btrieve_sql_driver.Schema.{IntField}

-- `quote_ident`
unfoldable pub ident : Backend → Str → Str
ident mssql name = codes "[" ++ replace_char 93 (codes "]]") name ++ codes "]"
ident postgres name = 34 ∷ (replace_char 34 (34 ∷ 34 ∷ []) name ++ 34 ∷ [])
ident sqlite name = 34 ∷ (replace_char 34 (34 ∷ 34 ∷ []) name ++ 34 ∷ [])

-- The length of a VARCHAR: an LSTRING has a length byte.
abbrev varchar_length : IntField → ℕ
varchar_length f = max (if f.native_type == type_lstring then f.length - 1 else f.length) 1

abbrev sized : Str → ℕ → Str
sized name n = name ++ codes "(" ++ show_nat n ++ codes ")"

abbrev mssql_type : IntField → Str → Str → Str
mssql_type f t collation =
    if str_eq t (codes "VARCHAR")
    then (if is_empty collation
        then sized (codes "VARCHAR") (varchar_length f)
        else sized (codes "VARCHAR") (varchar_length f) ++ codes " COLLATE " ++ collation)
    else if str_eq t (codes "VARBINARY")
    then sized (codes "VARBINARY") (max f.length 1)
    else t

abbrev postgres_type : IntField → Str → Str
postgres_type f t =
    if str_eq t (codes "VARCHAR")
    then sized (codes "VARCHAR") (varchar_length f)
    else if str_eq t (codes "VARBINARY")
    then codes "BYTEA"
    else if str_eq t (codes "DATETIME")
    then codes "TIMESTAMP"
    else if str_eq t (codes "BIT") || str_eq t (codes "TINYINT")
    then codes "SMALLINT"
    else t

abbrev sqlite_type : Str → Str
sqlite_type t =
    if str_eq t (codes "VARCHAR") || str_eq t (codes "CHAR") || str_eq t (codes "NVARCHAR")
    then codes "TEXT"
    else if str_eq t (codes "VARBINARY")
    then codes "BLOB"
    else if str_eq t (codes "DATETIME") || str_eq t (codes "DATE")
    then codes "TEXT"
    else if any (str_eq t)
        (codes "BIT" ∷ codes "TINYINT" ∷ codes "SMALLINT" ∷ codes "INT" ∷ codes "BIGINT" ∷ [])
    then codes "INTEGER"
    else t

unfoldable pub sql_type_str : Backend → IntField → Str → Str
unfolding sql_type show_nat
sql_type_str mssql f collation = mssql_type f (sql_type f.native_type f.length) collation
sql_type_str postgres f collation = postgres_type f (sql_type f.native_type f.length)
sql_type_str sqlite f collation = sqlite_type (sql_type f.native_type f.length)

abbrev pub col_def : Backend → Str → IntField → Str
col_def b collation f =
    codes "    " ++ ident b f.name ++ codes " " ++ sql_type_str b f collation ++ codes " NULL"

abbrev dotted : Backend → Str → Str → Str → Str
dotted b db sc t =
    if is_empty db
    then (if is_empty sc then t else ident b sc ++ codes "." ++ t)
    else if is_empty sc
    then ident b db ++ codes "." ++ t
    else ident b db ++ codes "." ++ ident b sc ++ codes "." ++ t

-- The name of a table, with its schema and database where the backend has them.
unfoldable pub table_ref : Backend → IntFile → Str
unfolding ident
table_ref mssql table = dotted mssql table.db_name table.schema_name (ident mssql table.table_name)
table_ref postgres table = dotted postgres [] table.schema_name (ident postgres table.table_name)
table_ref sqlite table = ident sqlite table.table_name

unfoldable pub gen_create_table : Backend → IntFile → Str → Str
unfolding table_ref sql_type_str
gen_create_table b table collation =
    let cols = join (codes ",\n") (map (col_def b collation) table.fields) in
    let body = table_ref b table ++ codes " (\n" ++ cols ++ codes "\n)" in
    let unguarded = codes "CREATE TABLE IF NOT EXISTS " ++ body in
    elim b [
      | mssql ↦
          codes "IF NOT EXISTS (SELECT 1 FROM INFORMATION_SCHEMA.TABLES WHERE TABLE_NAME='"
          ++ replace_char 39 (39 ∷ 39 ∷ []) table.table_name
          ++ codes "')\nCREATE TABLE "
          ++ body
      | postgres ↦ unguarded
      | sqlite ↦ unguarded
    ]

-- A decoded record: (column, literal) pairs.
abbrev pub DecodedRow : Type 0
DecodedRow = List (Str × Str)

abbrev column_list : Backend → DecodedRow → Str
column_list b row = join (codes ", ") (map (λ (c : Str × Str). ident b c.0) row)

abbrev first_row : List DecodedRow → DecodedRow
first_row [] = []
first_row (row ∷ rows) = row

abbrev values_of : DecodedRow → Str
values_of row = codes "(" ++ join (codes ", ") (map (λ (c : Str × Str). c.1) row) ++ codes ")"

-- The statement of `batch_insert_mssql`: all rows as literals.
unfoldable pub insert_mssql : IntFile → List DecodedRow → Str
unfolding table_ref ident
insert_mssql table rows =
    codes "INSERT INTO "
    ++ table_ref mssql table
    ++ codes " ("
    ++ column_list mssql (first_row rows)
    ++ codes ") VALUES\n"
    ++ join (codes ",\n") (map values_of rows)

abbrev placeholders : Backend → ℕ → ℕ → List Str
placeholders b i zero = []
placeholders b i (suc n) = param_marker b i ∷ placeholders b (i + 1) n

-- The prepared statement of `batch_insert_postgres` and `batch_insert_sqlite`.
unfoldable pub insert_prepared : Backend → IntFile → List DecodedRow → Str
unfolding table_ref ident
insert_prepared b table rows =
    codes "INSERT INTO "
    ++ table_ref b table
    ++ codes " ("
    ++ column_list b (first_row rows)
    ++ codes ") VALUES ("
    ++ join (codes ", ") (placeholders b 1 (length (first_row rows)))
    ++ codes ")"
