-- ===== src/Ops/Position.antt =====
-- ops/position.rs: Get Position, Get Direct and the percentage ops.
use wx_btrieve_sql_driver.Base.{
  List, Option, Str, [], and_then, codes, from_le_bytes, if◌then◌else◌, leb, lookup, ltb, max, min,
  nat_eq, negated, negsuc, none, or_else, parse_i64, pos, signed, some, suc, text_eq, to_le_bytes,
  to_word, trim, unwrap_or, zero, ℕ, ℤ, ◌*◌, ◌++◌, ◌-◌, ◌/◌, ◌^◌, ◌||◌, ◌∷◌,
}
use wx_btrieve_sql_driver.Client.{fetch_with, first_cell}
use wx_btrieve_sql_driver.Dialect.{
  LimitKind, limit_kind, limit_suffix, param_marker, select_top, select_with_limit,
}
use wx_btrieve_sql_driver.Ops.Fetch.{Fetched, Names, fetch_keyset_one_with, names_of}
use wx_btrieve_sql_driver.Ops.Get.{first_index_num}
use wx_btrieve_sql_driver.Schema.{TableMeta}
use wx_btrieve_sql_driver.Sql.Columns.{extract_key_vals}
use wx_btrieve_sql_driver.Sql.KeyWhere.{comparison, eq, le}
use wx_btrieve_sql_driver.SqlParam.{SqlValue, i64}
use wx_btrieve_sql_driver.Status.{btr_data_too_short, btr_eof, btr_key_not_found}
use wx_btrieve_sql_driver.World.{
  HandleEntry, M, World, from_result, gets, leave, leave_if, ok_of, or_leave, panic, pure, recode,
  settle, update, ◌>>=◌, ◌>>◌,
}
use wx_btrieve_sql_driver.World.Handles.{
  clone_table_meta, data_bytes, data_is_null, modify_handle, open_handle, posblk_key, write_data,
}

unfoldable pub op_get_position : M (Unit {0})
op_get_position = do
  hid ← gets posblk_key
  found ← gets (λ w. and_then (lookup hid w.handles) (λ h. h.last_recnum))
  update (write_data (to_le_bytes 4 (to_word (2 ^ 32) (unwrap_or found (pos 0)))))

abbrev after_direct : List SqlValue → ℤ → HandleEntry → HandleEntry
after_direct keys rn h = record h {
  get_last_keys = keys;
  get_last_recnum = some rn;
  last_recnum = some rn;
}

abbrev pub direct_query : Names → ℕ → Str × List SqlValue
direct_query names address =
    let (where_clause, params) = comparison names.b names.rc eq (i64 (pos address)) [] in
    (select_with_limit names.b 1 names.cols names.tref where_clause [], params)

abbrev pub hand_direct : ℕ → TableMeta → Fetched → M (Unit {0})
hand_direct hid meta row = do
  active ← gets (λ w. and_then (lookup hid w.handles) (λ h. h.get_index_num))
  let idx_num = unwrap_or (or_else active (first_index_num meta)) 0
  keys ← gets (λ w. extract_key_vals w.floats meta idx_num row.fields)
  update (modify_handle hid (after_direct keys row.recnum))
  update (write_data row.packed)

-- The search for the record at an address.
abbrev pub direct_at : ℕ → TableMeta → ℕ → M (Unit {0})
direct_at hid meta address = do
  names ← gets (names_of meta)
  let q = direct_query names address
  row ← recode btr_key_not_found btr_eof (fetch_keyset_one_with meta q.0 q.1)
  hand_direct hid meta row

abbrev pub direct_in : ℕ → TableMeta → M (Unit {0})
direct_in hid meta = do
  absent ← gets data_is_null
  cap ← gets (λ w. w.data_len)
  dlen ← or_leave cap btr_data_too_short
  leave_if (absent || ltb dlen 4) btr_data_too_short
  address ← gets (λ w. from_le_bytes (data_bytes 4 w))
  direct_at hid meta address

unfoldable pub op_get_direct : M (Unit {0})
unfolding clone_table_meta fetch_keyset_one_with modify_handle
op_get_direct = do hid ← gets posblk_key; meta ← clone_table_meta hid; direct_in hid meta

-- `fetch_with(..).ok()`, its first cell as an `i64`
abbrev count_or : ℤ → Str → List SqlValue → M ℤ
count_or d sql params = do
  r ← settle (fetch_with sql params 1 1)
  pure (unwrap_or (and_then (and_then (ok_of r) first_cell) (λ s. parse_i64 (trim s))) d)

abbrev times : ℕ → ℤ → ℤ
times k (pos n) = pos (k * n)
times k (negsuc n) = negated (k * suc n)

-- `i64` products wrap.
abbrev times_i64 : ℕ → ℤ → ℤ
times_i64 k v = signed (2 ^ 63) (to_word (2 ^ 64) (times k v))

-- Division rounds towards zero.
abbrev quotient : ℤ → ℕ → ℤ
quotient (pos n) d = pos (n / d)
quotient (negsuc n) d = negated (suc n / d)

abbrev at_least_one : ℤ → ℕ
at_least_one (pos n) = max n 1
at_least_one (negsuc n) = 1

abbrev count_sql : Names → Str
count_sql names = codes "SELECT COUNT(*) FROM " ++ names.tref

abbrev rank : Names → Option ℤ → M (ℤ × ℕ)
rank names none = pure (pos 0, 1)
rank names (some rn) = do
  let where_params = comparison names.b names.rc le (i64 rn) []
  before ← count_or (pos 0) (count_sql names ++ codes " WHERE " ++ where_params.0) where_params.1
  total ← count_or (pos 1) (count_sql names) []
  pure (before, at_least_one total)

unfoldable pub op_get_percent : M (Unit {0})
unfolding open_handle fetch_with
op_get_percent = do
  hid ← gets posblk_key
  h ← open_handle hid
  names ← gets (names_of h.meta)
  r ← rank names h.last_recnum
  let pct = to_word (2 ^ 32) (quotient (times_i64 10000 r.0) r.1)
  update (write_data (to_le_bytes 4 pct))

abbrev percent_in : World → ℕ
percent_in w = elim w.data_len [
  | none ↦ 0
  | some len ↦ if leb 4 len then from_le_bytes (data_bytes 4 w) else 0
]

-- `.clamp(0, total - 1)`
abbrev clamp_below : ℕ → ℤ → ℕ
clamp_below total (pos n) = min n (total - 1)
clamp_below total (negsuc n) = 0

abbrev row_limit : LimitKind → Str × Str
row_limit select_top = (codes "SELECT TOP 1 ", [])
row_limit limit_suffix = (codes "SELECT ", codes " LIMIT 1")

abbrev offset_query : Names → ℕ → Str × List SqlValue
offset_query names zero =
    (select_with_limit names.b 1 names.cols names.tref [] (names.rc ++ codes " ASC"), [])
offset_query names (suc n) =
    let (head, tail) = row_limit (limit_kind names.b) in
    (
      head
          ++ names.cols
          ++ codes " FROM (SELECT "
          ++ names.cols
          ++ codes ", ROW_NUMBER() OVER (ORDER BY "
          ++ names.rc
          ++ codes " ASC) AS _rn FROM "
          ++ names.tref
          ++ codes ") _t WHERE _rn > "
          ++ param_marker names.b 1
          ++ codes " ORDER BY _rn ASC"
          ++ tail,
      i64 (pos (suc n)) ∷ [],
    )

abbrev after_percent : ℤ → HandleEntry → HandleEntry
after_percent rn h = record h { step_last_recnum = some rn; last_recnum = some rn }

abbrev row_at_percent : ℕ → TableMeta → Names → ℕ → ℤ → M (Unit {0})
row_at_percent hid meta names pct (negsuc n) = from_result panic
row_at_percent hid meta names pct (pos zero) = leave btr_eof
row_at_percent hid meta names pct (pos (suc n)) = do
  let scaled = quotient (times_i64 pct (pos (suc n))) 10000
  let q = offset_query names (clamp_below (suc n) scaled)
  row ← recode btr_key_not_found btr_eof (fetch_keyset_one_with meta q.0 q.1)
  update (write_data row.packed)
  update (modify_handle hid (after_percent row.recnum))

-- A negative count makes `clamp` panic.
unfoldable pub op_find_percent : M (Unit {0})
unfolding clone_table_meta fetch_with fetch_keyset_one_with modify_handle
op_find_percent = do
  hid ← gets posblk_key
  meta ← clone_table_meta hid
  pct ← gets percent_in
  names ← gets (names_of meta)
  total ← count_or (pos 0) (count_sql names) []
  row_at_percent hid meta names pct total
