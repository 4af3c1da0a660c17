-- ===== src/Ops/Fetch.antt =====
-- state.rs `table_ref`, sql_helpers.rs `fetch_keyset_one_with` and `build_step_select_n_params`,
-- helpers.rs `get_lock_prefix`: what the navigation and write ops share.
use wx_btrieve_sql_driver.Base.{
  List, Option, Str, [], codes, drop, false, if◌then◌else◌, is_empty, length, none, parse_i64, pos,
  some, trim, unwrap_or, ℕ, ℤ, ◌++◌, ◌+◌, ◌==◌, ◌||◌, ◌∷◌,
}
use wx_btrieve_sql_driver.Client.{
  execute_with, fetch_with, last_row, lock_row, resolve_lock_prefix, unlock_row,
}
use wx_btrieve_sql_driver.Dialect.{Backend, mssql, postgres, quote_ident, select_with_limit, sqlite}
use wx_btrieve_sql_driver.Floats.{Floats}
use wx_btrieve_sql_driver.Record.Pack.{pack_row}
use wx_btrieve_sql_driver.Schema.{TableMeta, recnum_is_field}
use wx_btrieve_sql_driver.Sql.Columns.{
  Dir, direction, is_forward, recnum_sql_ref, select_with_recnum,
}
use wx_btrieve_sql_driver.Sql.KeyWhere.{comparison, seg_cmp}
use wx_btrieve_sql_driver.SqlParam.{SqlValue, i64}
use wx_btrieve_sql_driver.Status.{btr_key_not_found, btr_unsupported_op}
use wx_btrieve_sql_driver.World.{
  M, Settings, World, from_result, gets, leave_if, ok, or_leave, panic, pure, settle, update, ◌>>=◌,
  ◌>>◌,
}
use wx_btrieve_sql_driver.World.Handles.{modify_handle, open_handle}

abbrev or_blank : Str → Str → Str
or_blank [] s = s
or_blank (c ∷ cs) s = c ∷ cs

abbrev qualified : Backend → Str → Str → Str → Str
qualified b [] [] t = t
qualified b [] (c ∷ cs) t = quote_ident b (c ∷ cs) ++ codes "." ++ t
qualified b (d ∷ ds) [] t = quote_ident b (d ∷ ds) ++ codes "." ++ t
qualified b (d ∷ ds) (c ∷ cs) t =
    quote_ident b (d ∷ ds) ++ codes "." ++ quote_ident b (c ∷ cs) ++ codes "." ++ t

unfoldable pub table_ref : Settings → TableMeta → Str → Str → Str
table_ref s meta db_override schema_override =
    let t = quote_ident s.backend meta.table_name in
    let sc = or_blank schema_override (or_blank meta.schema_name s.schema) in
    elim s.backend [
      | mssql ↦ qualified mssql (or_blank db_override meta.db_name) sc t
      | postgres ↦ qualified postgres [] sc t
      | sqlite ↦ t
    ]

-- What a query over the whole table names: its columns, the table and the record number.
pub record Names : Type 0 where
  pub b : Backend
  pub cols : Str
  pub tref : Str
  pub rc : Str

abbrev pub names_of : TableMeta → World → Names
names_of meta w = record {
  b = w.settings.backend;
  cols = select_with_recnum w.settings.backend meta;
  tref = table_ref w.settings meta [] [];
  rc = recnum_sql_ref w.settings.backend meta;
}

pub record Fetched : Type 0 where
  pub recnum : ℤ
  pub packed : List ℕ
  pub fields : List Str

abbrev pub parse_recnum : Str → ℤ
parse_recnum s = unwrap_or (parse_i64 (trim s)) (pos 0)

abbrev pub n_cols : TableMeta → ℕ
n_cols meta = if recnum_is_field meta then length meta.fields else 1 + length meta.fields

-- Of a row that starts with the record number: with it as a field, the row is the fields.
unfoldable pub row_fields : TableMeta → List Str → List Str
row_fields meta row = if recnum_is_field meta then row else drop 1 row

-- `rows.pop().ok_or(4)`; with no parameters by `fetch_one_row`, which does the same.
abbrev pub fetch_row : Str → List SqlValue → ℕ → M (List Str)
fetch_row sql params n = do
  rows ← fetch_with sql params n 1
  or_leave (last_row rows) btr_key_not_found

-- `row[0]` of an empty row panics.
abbrev pub fetched_of : Floats → TableMeta → List Str → M Fetched
fetched_of fl meta [] w = (panic, w)
fetched_of fl meta (c ∷ cs) w =
    let fields = row_fields meta (c ∷ cs) in
    (
      ok (record {
        recnum = parse_recnum c;
        packed = pack_row fl meta.fields fields meta.record_length;
        fields = fields;
      }),
      w,
    )

unfoldable pub fetch_keyset_one_with : TableMeta → Str → List SqlValue → M Fetched
unfolding fetch_with
fetch_keyset_one_with meta sql params = do
  leave_if (is_empty meta.fields || meta.record_length == 0) btr_unsupported_op
  row ← fetch_row sql params (n_cols meta)
  fl ← gets (λ w. w.floats)
  fetched_of fl meta row

abbrev pub after_recnum : Names → Dir → Option ℤ → Str × List SqlValue
after_recnum names dir none = ([], [])
after_recnum names dir (some rn) = comparison names.b names.rc (seg_cmp dir false) (i64 rn) []

unfoldable pub build_step_select_n_params : Names → Option ℤ → Dir → ℕ → Str × List SqlValue
build_step_select_n_params names last_recnum dir n =
    let (where_clause, params) = after_recnum names dir last_recnum in
    let order_by = names.rc ++ codes " " ++ direction (is_forward dir) in
    (select_with_limit names.b n names.cols names.tref where_clause order_by, params)

-- A prefix that is not known yet is resolved and kept.
abbrev pub prefix_or_resolve : ℕ → TableMeta → Option Str → M Str
prefix_or_resolve key meta (some p) = pure p
prefix_or_resolve key meta none = do
  p ← resolve_lock_prefix meta.db_name meta.schema_name meta.table_name
  update (modify_handle key (λ e. record e { lock_prefix = some p }))
  pure p

unfoldable pub get_lock_prefix : ℕ → M Str
unfolding open_handle resolve_lock_prefix modify_handle
get_lock_prefix key = do h ← open_handle key; prefix_or_resolve key h.meta h.lock_prefix

-- Runs a statement on a row under the row's lock; a failing unlock is ignored.
unfoldable pub with_row_lock : ℕ → ℤ → Str → List SqlValue → M (Unit {0})
unfolding get_lock_prefix lock_row unlock_row execute_with
with_row_lock hid recnum sql params = do
  prefix ← get_lock_prefix hid
  lock_row prefix recnum
  rc ← settle (execute_with sql params)
  settle (unlock_row prefix recnum)
  from_result rc
