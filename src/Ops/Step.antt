-- ===== src/Ops/Step.antt =====
-- ops/step.rs: walking a file in the order of its record numbers, with a cache of rows.
use wx_btrieve_sql_driver.Base.{
  Bool, List, Str, [], false, if◌then◌else◌, length, none, some, true, ℕ, ℤ, ◌+◌, ◌∷◌,
}
use wx_btrieve_sql_driver.Client.{fetch_with}
use wx_btrieve_sql_driver.Floats.{Floats}
use wx_btrieve_sql_driver.Ops.Fetch.{build_step_select_n_params, names_of, parse_recnum}
use wx_btrieve_sql_driver.Record.Pack.{pack_row}
use wx_btrieve_sql_driver.Schema.{TableMeta}
use wx_btrieve_sql_driver.Sql.Columns.{Dir, backward, forward}
use wx_btrieve_sql_driver.Status.{btr_eof, btr_key_not_found}
use wx_btrieve_sql_driver.World.{HandleEntry, M, gets, leave, recode, update, ◌>>=◌, ◌>>◌}
use wx_btrieve_sql_driver.World.Handles.{modify_handle, open_handle, posblk_key, write_data}

abbrev pub step_chunk_size : ℕ
step_chunk_size = 256

abbrev pub take_cached : ℤ → List (ℤ × List ℕ) → HandleEntry → HandleEntry
take_cached rn rest h = record h {
  step_cache = rest;
  step_last_recnum = some rn;
  last_recnum = some rn;
}

abbrev pub same_dir : Dir → Dir → Bool
same_dir forward forward = true
same_dir forward backward = false
same_dir backward forward = false
same_dir backward backward = true

-- Rows of a batch as (record number, packed record): the first column is the number, empty rows
-- are skipped.
unfoldable pub batch_rows : Floats → TableMeta → List (List Str) → List (ℤ × List ℕ)
batch_rows fl meta [] = []
batch_rows fl meta ([] ∷ rows) = batch_rows fl meta rows
batch_rows fl meta ((c ∷ cs) ∷ rows) =
    (parse_recnum c, pack_row fl meta.fields cs meta.record_length) ∷ batch_rows fl meta rows

abbrev store_batch : Dir → ℤ → List (ℤ × List ℕ) → HandleEntry → HandleEntry
store_batch dir rn rest h = record h {
  step_last_recnum = some rn;
  last_recnum = some rn;
  step_dir = dir;
  step_cache_dir = dir;
  step_cache = rest;
}

abbrev pub deliver : ℕ → Dir → List (ℤ × List ℕ) → M (Unit {0})
deliver hid dir [] = leave btr_eof
deliver hid dir ((rn, packed) ∷ rest) = do
  update (modify_handle hid (store_batch dir rn rest))
  update (write_data packed)

-- The part behind a cache miss.
unfoldable pub step_fetch : ℕ → Dir → M (Unit {0})
unfolding open_handle modify_handle fetch_with
step_fetch hid dir = do
  h ← open_handle hid
  let n = if h.meta.local_cache then step_chunk_size else 1
  names ← gets (names_of h.meta)
  let q = build_step_select_n_params names h.step_last_recnum dir n
  rows ← recode btr_key_not_found btr_eof (fetch_with q.0 q.1 (length h.meta.fields + 1) n)
  fl ← gets (λ w. w.floats)
  deliver hid dir (batch_rows fl h.meta rows)

abbrev pub from_cache : ℕ → Dir → List (ℤ × List ℕ) → M (Unit {0})
from_cache hid dir [] = step_fetch hid dir
from_cache hid dir ((rn, packed) ∷ rest) = do
  update (modify_handle hid (take_cached rn rest))
  update (write_data packed)

abbrev pub drop_cache : HandleEntry → HandleEntry
drop_cache h = record h { step_cache = [] }

-- A cache of the other direction is dropped.
unfoldable pub step_with : ℕ → Dir → HandleEntry → M (Unit {0})
unfolding modify_handle step_fetch
step_with hid dir h =
    if same_dir h.step_cache_dir dir
    then from_cache hid dir h.step_cache
    else update (modify_handle hid drop_cache) >> step_fetch hid dir

unfoldable pub step_cached : ℕ → Dir → M (Unit {0})
unfolding open_handle step_with
step_cached hid dir = do h ← open_handle hid; step_with hid dir h

abbrev pub rewound : HandleEntry → HandleEntry
rewound h = record h { step_cache = []; step_last_recnum = none }

-- `op_step_first` and `op_step_last`
abbrev from_end : Dir → M (Unit {0})
from_end dir = do hid ← gets posblk_key; update (modify_handle hid rewound); step_cached hid dir

unfoldable pub op_step_first : M (Unit {0})
unfolding step_cached
op_step_first = from_end forward

unfoldable pub op_step_last : M (Unit {0})
unfolding step_cached
op_step_last = from_end backward

unfoldable pub op_step_next : M (Unit {0})
unfolding step_cached
op_step_next = do hid ← gets posblk_key; step_cached hid forward

unfoldable pub op_step_prev : M (Unit {0})
unfolding step_cached
op_step_prev = do hid ← gets posblk_key; step_cached hid backward
