-- ===== src/Ops/Get.antt =====
-- ops/get.rs and get_key.rs: searching a file and walking it in the order of an index.
use wx_btrieve_sql_driver.Base.{
  Bool, List, Option, Str, [], and_then, false, filter_map, first, if◌then◌else◌, is_empty, length,
  map, min, none, or_else, replicate, some, take, true, zip, zip_repeat, ℕ, ℤ, ◌%◌, ◌&&◌, ◌++◌, ◌-◌,
  ◌/◌, ◌==◌, ◌∷◌,
}
use wx_btrieve_sql_driver.Dialect.{select_with_limit}
use wx_btrieve_sql_driver.Ops.Fetch.{Fetched, Names, fetch_keyset_one_with, names_of}
use wx_btrieve_sql_driver.Record.Key.{unpack_key_fields}
use wx_btrieve_sql_driver.Schema.{TableMeta}
use wx_btrieve_sql_driver.Sql.Columns.{
  Dir, backward, build_order_by_cols, extract_key_vals, forward, index_col_refs, pick_index,
  refs_of_index,
}
use wx_btrieve_sql_driver.Sql.KeyWhere.{
  Cmp, build_continuation_where_marker, build_key_where, eq, ge, gt, le, lt,
}
use wx_btrieve_sql_driver.SqlParam.{SqlValue}
use wx_btrieve_sql_driver.Status.{btr_eof, btr_key_not_found, btr_unsupported_op}
use wx_btrieve_sql_driver.World.{
  HandleEntry, M, World, from_result, gets, leave, leave_if, or_leave, recode, settle, update,
  ◌>>=◌, ◌>>◌,
}
use wx_btrieve_sql_driver.World.Handles.{
  keybuf_bytes, modify_handle, open_handle, posblk_key, set_data_len, write_data, write_key_buf,
}

-- What a search leaves on the handle.
abbrev pub after_search : ℕ → List SqlValue → List Bool → ℤ → Dir → HandleEntry → HandleEntry
after_search idx_num keys descs rn dir h = record h {
  get_index_num = some idx_num;
  get_last_keys = keys;
  get_last_desc = descs;
  get_last_recnum = some rn;
  get_dir = dir;
  last_recnum = some rn;
}

-- What a walk leaves on it.
abbrev pub after_walk : List SqlValue → ℤ → Dir → HandleEntry → HandleEntry
after_walk keys rn dir h = record h {
  get_last_keys = keys;
  get_last_recnum = some rn;
  get_dir = dir;
  last_recnum = some rn;
}

-- The key buffer, then the data buffer.
abbrev hand_out : TableMeta → ℕ → List ℕ → M (Unit {0})
hand_out meta idx_num packed = do
  update (write_key_buf meta idx_num packed)
  update (write_data packed)

abbrev keys_of : TableMeta → ℕ → Fetched → M (List SqlValue)
keys_of meta idx_num row = gets (λ w. extract_key_vals w.floats meta idx_num row.fields)

abbrev finish_search : ℕ → TableMeta → ℕ → List Bool → Dir → Fetched → M (Unit {0})
finish_search hid meta idx_num descs dir row = do
  keys ← keys_of meta idx_num row
  update (modify_handle hid (after_search idx_num keys descs row.recnum dir))
  hand_out meta idx_num row.packed

-- The key bytes that the caller gave, padded by zeros to the key's length.
abbrev pub provided_key : ℕ → ℕ → World → List ℕ
provided_key key_num key_len w =
    let n = if key_num / 256 == 0 then key_len else min (key_num % 256) key_len in
    let given = keybuf_bytes n w in take key_len given ++ replicate (key_len - length given) 0

-- Each column with the value to search, null segments left out.
abbrev pub searched : List (Str × Bool) → List (Str × Option SqlValue) → List (Str × SqlValue)
searched refs kf =
    filter_map (λ p. elim p.1.1 [ none ↦ none | some v ↦ some (p.0.0, v) ]) (zip refs kf)

abbrev run_query : ℕ → TableMeta → Names → Str → Str → List SqlValue → M Fetched
run_query not_found meta names where_clause order_by params = recode btr_key_not_found not_found (
    fetch_keyset_one_with meta
      (select_with_limit names.b 1 names.cols names.tref where_clause order_by) params)

unfoldable pub op_get_by_key : ℕ → Cmp → Dir → ℕ → M (Unit {0})
unfolding open_handle fetch_keyset_one_with modify_handle
op_get_by_key key_num cmp dir not_found = do
  hid ← gets posblk_key
  h ← open_handle hid
  let meta = h.meta
  idx ← or_leave (pick_index meta key_num h.get_index_num) not_found
  key_bytes ← gets (provided_key key_num idx.key_len)
  fl ← gets (λ w. w.floats)
  names ← gets (names_of meta)
  let kf = unpack_key_fields fl meta.fields idx key_bytes meta.ignore_null_values
  let refs = refs_of_index names.b meta idx
  let key_cols = searched refs kf
  leave_if (meta.ignore_null_values && is_empty key_cols) not_found
  let where_params = build_key_where names.b key_cols cmp []
  let order_by = build_order_by_cols refs dir false names.rc
  row ← run_query not_found meta names where_params.0 order_by where_params.1
  finish_search hid meta idx.num (map (λ r. r.1) refs) dir row

unfoldable pub op_get_equal : ℕ → M (Unit {0})
unfolding op_get_by_key
op_get_equal key_num = op_get_by_key key_num eq forward 4

unfoldable pub op_get_greater : ℕ → M (Unit {0})
unfolding op_get_by_key
op_get_greater key_num = op_get_by_key key_num gt forward 9

unfoldable pub op_get_greater_or_equal : ℕ → M (Unit {0})
unfolding op_get_by_key
op_get_greater_or_equal key_num = op_get_by_key key_num ge forward 9

unfoldable pub op_get_less : ℕ → M (Unit {0})
unfolding op_get_by_key
op_get_less key_num = op_get_by_key key_num lt backward 9

unfoldable pub op_get_less_or_equal : ℕ → M (Unit {0})
unfolding op_get_by_key
op_get_less_or_equal key_num = op_get_by_key key_num le backward 9

-- `op_get_first` and `op_get_last` differ in the direction alone.
unfoldable pub op_get_end : Dir → ℕ → M (Unit {0})
unfolding open_handle fetch_keyset_one_with modify_handle
op_get_end dir key_num = do
  hid ← gets posblk_key
  h ← open_handle hid
  let meta = h.meta
  idx ← or_leave (pick_index meta key_num h.get_index_num) btr_eof
  names ← gets (names_of meta)
  let refs = index_col_refs names.b meta idx.num
  let order_by = build_order_by_cols refs dir false names.rc
  row ← run_query btr_eof meta names [] order_by []
  finish_search hid meta idx.num (map (λ r. r.1) refs) dir row

unfoldable pub op_get_first : ℕ → M (Unit {0})
unfolding op_get_end
op_get_first key_num = op_get_end forward key_num

unfoldable pub op_get_last : ℕ → M (Unit {0})
unfolding op_get_end
op_get_last key_num = op_get_end backward key_num

-- Each column of the index with the last row's value and direction.
abbrev pub walked : List (Str × Bool) → List SqlValue → List Bool → List (Str × SqlValue × Bool)
walked refs keys descs = map (λ p. (p.0.0.0, p.0.1, p.1)) (zip_repeat false (zip refs keys) descs)

-- The WHERE clause of a walk: none before the first row.
abbrev pub continuation :
    Names → List (Str × Bool) → List SqlValue → List Bool → Option ℤ → Dir → Str × List SqlValue
continuation names refs [] descs last_rn dir = ([], [])
continuation names refs (k ∷ ks) descs none dir = ([], [])
continuation names refs (k ∷ ks) descs (some rn) dir =
    build_continuation_where_marker names.b (walked refs (k ∷ ks) descs) dir rn names.rc []

abbrev pub first_index_num : TableMeta → Option ℕ
first_index_num meta = and_then (first meta.indexes) (λ ix. some ix.num)

-- `op_get_next` and `op_get_prev` differ in the direction alone.
unfoldable pub op_get_walk : Dir → M (Unit {0})
unfolding open_handle fetch_keyset_one_with modify_handle
op_get_walk dir = do
  hid ← gets posblk_key
  h ← open_handle hid
  let meta = h.meta
  idx_num ← or_leave (or_else h.get_index_num (first_index_num meta)) btr_eof
  names ← gets (names_of meta)
  let refs = index_col_refs names.b meta idx_num
  let order_by = build_order_by_cols refs dir true names.rc
  let where_params = continuation names refs h.get_last_keys h.get_last_desc h.get_last_recnum dir
  row ← run_query btr_eof meta names where_params.0 order_by where_params.1
  keys ← keys_of meta idx_num row
  update (modify_handle hid (after_walk keys row.recnum dir))
  hand_out meta idx_num row.packed

unfoldable pub op_get_next : M (Unit {0})
unfolding op_get_walk
op_get_next = op_get_walk forward

unfoldable pub op_get_prev : M (Unit {0})
unfolding op_get_walk
op_get_prev = op_get_walk backward

-- The base op of a Get Key.
unfoldable pub get_key_base : ℕ → ℕ → Option (M (Unit {0}))
get_key_base base key_num =
    if base == 5
    then some (op_get_equal key_num)
    else if base == 6
    then some op_get_next
    else if base == 7
    then some op_get_prev
    else if base == 8
    then some (op_get_greater key_num)
    else if base == 9
    then some (op_get_greater_or_equal key_num)
    else if base == 10
    then some (op_get_less key_num)
    else if base == 11
    then some (op_get_less_or_equal key_num)
    else if base == 12
    then some (op_get_first key_num)
    else if base == 13
    then some (op_get_last key_num)
    else none

abbrev pub zero_data_len : World → World
zero_data_len w = elim w.data_len [ none ↦ w | some n ↦ set_data_len 0 w ]

-- The base op, then no record length.
abbrev pub without_record : Option (M (Unit {0})) → M (Unit {0})
without_record none = leave btr_unsupported_op
without_record (some op) = do r ← settle op; update zero_data_len; from_result r

-- ops 55 to 63
unfoldable pub op_get_key : ℕ → ℕ → M (Unit {0})
unfolding get_key_base
op_get_key operation key_num = without_record (get_key_base (operation - 50) key_num)
