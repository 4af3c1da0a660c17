-- ===== src/Dialect.antt =====
-- crates/wxbtrv-core/src/dialect.rs: the SQL of the three backends. A method of the trait is a
-- function on the backend, which `for_backend` maps to its dialect.
pub mod Quoting
use wx_btrieve_sql_driver.Base.{
  Str, [], codes, refl, replace_char, show_nat, ℕ, ◌*◌, ◌++◌, ◌∷◌, ◌≡◌,
}

-- state.rs `Backend`
pub data Backend : Type 0 where
  mssql postgres sqlite : Backend

pub data LimitKind : Type 0 where
  select_top limit_suffix : LimitKind

abbrev pub limit_kind : Backend → LimitKind
limit_kind mssql = select_top
limit_kind postgres = limit_suffix
limit_kind sqlite = limit_suffix

unfoldable pub quote_ident : Backend → Str → Str
quote_ident mssql name = codes "[" ++ replace_char 93 (codes "]]") name ++ codes "]"
quote_ident postgres name = 34 ∷ (replace_char 34 (34 ∷ 34 ∷ []) name ++ 34 ∷ [])
quote_ident sqlite name = 34 ∷ (replace_char 34 (34 ∷ 34 ∷ []) name ++ 34 ∷ [])

abbrev pub identity_column : Backend → Str
identity_column mssql = codes "INT IDENTITY(1,1) PRIMARY KEY"
identity_column postgres = codes "BIGINT GENERATED ALWAYS AS IDENTITY PRIMARY KEY"
identity_column sqlite = codes "INTEGER PRIMARY KEY AUTOINCREMENT"

abbrev pub last_insert_id_sql : Backend → Str
last_insert_id_sql mssql = codes "SELECT CAST(SCOPE_IDENTITY() AS BIGINT)"
last_insert_id_sql postgres = codes "SELECT lastval()"
last_insert_id_sql sqlite = codes "SELECT last_insert_rowid()"

unfoldable pub param_marker : Backend → ℕ → Str
param_marker mssql idx = codes "?"
param_marker postgres idx = codes "$" ++ show_nat idx
param_marker sqlite idx = codes "?"

unfoldable pub drop_index_sql : Backend → Str → Str → Str
drop_index_sql mssql index table = codes "DROP INDEX " ++ index ++ codes " ON " ++ table
drop_index_sql postgres index table = codes "DROP INDEX " ++ index
drop_index_sql sqlite index table = codes "DROP INDEX " ++ index

unfoldable pub create_table_if_not_exists : Backend → Str → Str → Str
create_table_if_not_exists mssql table cols =
    codes "IF OBJECT_ID(N'"
    ++ replace_char 39 (39 ∷ 39 ∷ []) table
    ++ codes "', N'U') IS NULL CREATE TABLE "
    ++ table
    ++ codes " ("
    ++ cols
    ++ codes ")"
create_table_if_not_exists postgres table cols =
    codes "CREATE TABLE IF NOT EXISTS " ++ table ++ codes " (" ++ cols ++ codes ")"
create_table_if_not_exists sqlite table cols =
    codes "CREATE TABLE IF NOT EXISTS " ++ table ++ codes " (" ++ cols ++ codes ")"

abbrev pub begin_sql : Backend → Str
begin_sql mssql = codes "BEGIN TRANSACTION"
begin_sql postgres = codes "BEGIN TRANSACTION"
begin_sql sqlite = codes "BEGIN"

abbrev keyword : Str → Str → Str
keyword word [] = []
keyword word (c ∷ cs) = word ++ c ∷ cs

abbrev top_clause : LimitKind → ℕ → Str
top_clause select_top n = codes "TOP " ++ show_nat n ++ codes " "
top_clause limit_suffix n = []

abbrev limit_clause : LimitKind → ℕ → Str
limit_clause select_top n = []
limit_clause limit_suffix n = codes " LIMIT " ++ show_nat n

unfoldable pub select_with_limit : Backend → ℕ → Str → Str → Str → Str → Str
select_with_limit b n cols from where_clause order_by =
    codes "SELECT "
    ++ top_clause (limit_kind b) n
    ++ cols
    ++ codes " FROM "
    ++ from
    ++ keyword (codes " WHERE ") where_clause
    ++ keyword (codes " ORDER BY ") order_by
    ++ limit_clause (limit_kind b) n

mssql_uses_top :
    select_with_limit mssql 1 (codes "*") (codes "[t]") (codes "a = 1") (codes "a ASC")
    ≡ codes "SELECT TOP 1 * FROM [t] WHERE a = 1 ORDER BY a ASC"
unfolding select_with_limit show_nat
mssql_uses_top = refl

postgres_uses_limit_suffix :
    select_with_limit postgres 15 (codes "*") (codes "t") [] (codes "id")
    ≡ codes "SELECT * FROM t ORDER BY id LIMIT 15"
unfolding select_with_limit show_nat
postgres_uses_limit_suffix = refl
