-- ===== src/Ops/Session.antt =====
-- ops/open.rs, close.rs, session.rs, txn.rs and owner.rs: the life of a handle, the session's
-- directory and the transactions.
use mathlib.Core.List.{reverse}
use wx_btrieve_sql_driver.Base.{
  List, Option, Str, [], as_bytes, codes, drop_while, from_utf8_lossy, insert, map, min, nat_eq,
  none, not, remove, some, splice, take, take_while, text_eq, to_ascii_uppercase, to_le_bytes, trim,
  unwrap_or, ℕ, ◌%◌, ◌++◌, ◌+◌, ◌==◌, ◌^◌, ◌||◌, ◌∷◌,
}
use wx_btrieve_sql_driver.Client.{abort_txn, begin_txn, commit_txn, reset_connection}
use wx_btrieve_sql_driver.Client.Discovery.{
  discover_table_meta, get_table_meta_for_path, table_name_from_path,
}
use wx_btrieve_sql_driver.Schema.{TableMeta}
use wx_btrieve_sql_driver.Status.{btr_file_not_found}
use wx_btrieve_sql_driver.World.{
  HandleEntry, M, World, gets, ok, ok_of, or_leave, pure, settle, update, ◌>>=◌, ◌>>◌,
}
use wx_btrieve_sql_driver.World.Handles.{
  alloc_handle, c_string, data_bytes, data_len_in, keybuf_cstr, modify_handle, open_handle,
  posblk_key, write_data,
}

-- `fetch_add(1)` on an `AtomicU32`
unfoldable pub next_handle_id : M ℕ
next_handle_id w = (ok w.handle_ctr, record w { handle_ctr = (w.handle_ctr + 1) % 2 ^ 32 })

abbrev pub write_posblk : ℕ → World → World
write_posblk id w = elim w.posblk [
  | none ↦ w
  | some mem ↦ record w {
    buffers = record w.buffers { posblk = some (splice 0 (to_le_bytes 4 id) mem) };
  }
]

abbrev pub remember_table : Str → TableMeta → World → World
remember_table name m w = record w { tables = insert (to_ascii_uppercase name) m w.tables }

abbrev pub discover : Str → Str → M TableMeta
discover table path = do
  r ← settle (discover_table_meta table path)
  m ← or_leave (ok_of r) btr_file_not_found
  update (remember_table table m)
  pure m

abbrev pub found_meta : Str → Str → Option TableMeta → M TableMeta
found_meta table path none = discover table path
found_meta table path (some m) = pure m

abbrev pub start_handle : Str → TableMeta → M (Unit {0})
start_handle path meta = do
  id ← next_handle_id
  update (write_posblk id)
  update (alloc_handle id meta path)

unfoldable pub op_open : M (Unit {0})
unfolding next_handle_id alloc_handle keybuf_cstr
op_open = do
  path ← gets keybuf_cstr
  table ← gets (λ w. table_name_from_path w.paths path)
  known ← gets (get_table_meta_for_path table path)
  meta ← found_meta table path known
  start_handle path meta

unfoldable pub op_close : M (Unit {0})
unfolding open_handle
op_close = do
  key ← gets posblk_key
  open_handle key
  update (λ w. record w { handles = remove key w.handles })

unfoldable pub op_version : M (Unit {0})
op_version = update (write_data (0x0f ∷ 0x06 ∷ 0x00 ∷ 0x02 ∷ 0x00 ∷ 0x00 ∷ []))

unfoldable pub op_stop : M (Unit {0})
unfolding reset_connection
op_stop = do reset_connection; update (λ w. record w { handles = [] })

abbrev pub cleared_by_reset : HandleEntry → HandleEntry
cleared_by_reset h = record h {
  step_last_recnum = none;
  get_last_keys = [];
  get_last_recnum = none;
  last_recnum = none;
}

unfoldable pub op_reset : M (Unit {0})
unfolding modify_handle
op_reset = do hid ← gets posblk_key; update (modify_handle hid cleared_by_reset)

unfoldable pub op_unlock : M (Unit {0})
unfolding open_handle
op_unlock = do hid ← gets posblk_key; open_handle hid; pure tt

-- `trim_end_matches(c)`
abbrev pub trim_end_char : ℕ → Str → Str
trim_end_char c s = reverse (drop_while (λ x. x == c) (reverse s))

abbrev pub directory_of : List ℕ → Str
directory_of mem =
    let raw = from_utf8_lossy (take_while (λ b. not (b == 0 || b == 0x20)) (take 80 mem)) in
    trim_end_char 47 (trim_end_char 92 (trim raw))

abbrev some_unless_blank : Str → Option Str
some_unless_blank [] = none
some_unless_blank (c ∷ cs) = some (c ∷ cs)

unfoldable pub op_set_dir : M (Unit {0})
op_set_dir = update λ w. elim w.key_buf [
  | none ↦ w
  | some mem ↦ record w { client_cwd = some_unless_blank (directory_of mem) }
]

unfoldable pub op_get_dir : M (Unit {0})
op_get_dir = update (λ w. write_data (as_bytes (unwrap_or w.client_cwd []) ++ 0 ∷ []) w)

-- No bookkeeping on a SQL backend: the path list is parsed for the trace alone.
unfoldable pub op_continuous_operation : M (Unit {0})
op_continuous_operation = pure tt

abbrev pub without_currency : HandleEntry → HandleEntry
without_currency h = record h {
  step_last_recnum = none;
  step_cache = [];
  get_last_keys = [];
  get_last_desc = [];
  get_last_recnum = none;
  last_recnum = none;
}

unfoldable pub invalidate_all_currency : World → World
invalidate_all_currency w = record w { handles = map (λ e. (e.0, without_currency e.1)) w.handles }

unfoldable pub op_begin_txn : M (Unit {0})
unfolding begin_txn
op_begin_txn = begin_txn (codes "SERIALIZABLE")

unfoldable pub op_begin_concurrent_txn : M (Unit {0})
unfolding begin_txn
op_begin_concurrent_txn = begin_txn (codes "READ COMMITTED")

unfoldable pub op_end_txn : M (Unit {0})
unfolding commit_txn
op_end_txn = commit_txn

unfoldable pub op_abort_txn : M (Unit {0})
unfolding abort_txn invalidate_all_currency
op_abort_txn = do abort_txn; update invalidate_all_currency

abbrev owner_of : World → Str
owner_of w = c_string (data_bytes (min (data_len_in w) 64) w)

unfoldable pub op_set_owner : M (Unit {0})
unfolding open_handle modify_handle
op_set_owner = do
  hid ← gets posblk_key
  name ← gets owner_of
  open_handle hid
  update (modify_handle hid (λ h. record h { owner_name = some_unless_blank name }))

unfoldable pub op_clear_owner : M (Unit {0})
unfolding open_handle modify_handle
op_clear_owner = do
  hid ← gets posblk_key
  open_handle hid
  update (modify_handle hid (λ h. record h { owner_name = none }))
