-- ===== src/World/Handles.antt =====
-- crates/wxbtrv-core/src/ops/helpers.rs: the handle table and the caller's buffers.
use mathlib.Core.List.{flatten}
use wx_btrieve_sql_driver.Base.{
  Bool, List, Option, Str, [], false, filter_map, from_le_bytes, from_utf8_lossy, if◌then◌else◌,
  insert, leb, length, lookup, map, min, modify, nat_eq, none, not, replicate, slice, some, splice,
  take, take_while, text_eq, true, unwrap_or, ℕ, ◌++◌, ◌+◌, ◌-◌, ◌==◌,
}
use wx_btrieve_sql_driver.Schema.{IntField, RuntimeIndex, TableMeta, field_map_get, index_of_num}
use wx_btrieve_sql_driver.Sql.Columns.{forward}
use wx_btrieve_sql_driver.Status.{btr_file_not_open}
use wx_btrieve_sql_driver.World.{HandleEntry, M, World, or_leave, pure, ◌>>=◌}

unfoldable pub posblk_key : World → ℕ
posblk_key w = elim w.posblk [ none ↦ 0 | some mem ↦ from_le_bytes (take 4 mem) ]

unfoldable pub keybuf_bytes : ℕ → World → List ℕ
keybuf_bytes n w = elim w.key_buf [ none ↦ [] | some mem ↦ take n mem ]

abbrev pub c_string : List ℕ → Str
c_string mem = from_utf8_lossy (take_while (λ b. not (b == 0)) mem)

unfoldable pub keybuf_cstr : World → Str
keybuf_cstr w = elim w.key_buf [ none ↦ [] | some mem ↦ c_string (take 260 mem) ]

-- The key bytes of one field, padded by zeros where the record is shorter.
abbrev pub key_segment : List ℕ → IntField → List ℕ
key_segment packed f =
    let avail = length packed - f.offset in
    if leb (f.offset + f.length) (length packed)
    then slice f.offset f.length packed
    else slice f.offset avail packed ++ replicate (f.length - avail) 0

abbrev pub key_image : TableMeta → RuntimeIndex → List ℕ → List ℕ
key_image meta idx packed =
    flatten (map (key_segment packed) (filter_map (field_map_get meta.fields) idx.field_nums))

unfoldable pub write_key_buf : TableMeta → ℕ → List ℕ → World → World
write_key_buf meta idx_num packed w = elim w.key_buf [
  | none ↦ w
  | some mem ↦ elim (index_of_num meta idx_num) [
    | none ↦ w
    | some idx ↦ record w {
      buffers = record w.buffers { key_buf = some (splice 0 (key_image meta idx packed) mem) };
    }
  ]
]

unfoldable pub write_data : List ℕ → World → World
write_data out w = elim w.data_buf [
  | none ↦ w
  | some mem ↦ elim w.data_len [
    | none ↦ w
    | some cap ↦
        let n = min (length out) cap in
        record w {
          buffers = record w.buffers {
            data_buf = some (splice 0 (take n out) mem);
            data_len = some n;
          };
        }
  ]
]

abbrev pub new_handle : TableMeta → Str → HandleEntry
new_handle meta path = record {
  meta = meta;
  b_path = path;
  step_last_recnum = none;
  step_dir = forward;
  get_index_num = none;
  get_last_keys = [];
  get_last_desc = [];
  get_last_recnum = none;
  get_dir = forward;
  last_recnum = none;
  step_cache = [];
  step_cache_dir = forward;
  lock_prefix = none;
  owner_name = none;
}

unfoldable pub alloc_handle : ℕ → TableMeta → Str → World → World
alloc_handle key meta path w = record w { handles = insert key (new_handle meta path) w.handles }

-- `if let Some(h) = st.handles.get_mut(&hid) { .. }`
unfoldable pub modify_handle : ℕ → (HandleEntry → HandleEntry) → World → World
modify_handle hid f w = record w { handles = modify hid f w.handles }

-- `let Some(h) = st.handles.get(&hid) else { return BTR_FILE_NOT_OPEN }`
unfoldable pub open_handle : ℕ → M HandleEntry
open_handle hid w = or_leave (lookup hid w.handles) btr_file_not_open w

unfoldable pub clone_table_meta : ℕ → M TableMeta
unfolding open_handle
clone_table_meta hid = do h ← open_handle hid; pure h.meta

-- `if data_len.is_null() { 0 } else { *data_len }`
abbrev pub data_len_in : World → ℕ
data_len_in w = unwrap_or w.data_len 0

abbrev pub is_none : Option (List ℕ) → Bool
is_none none = true
is_none (some mem) = false

-- `data_buf.is_null()`
abbrev pub data_is_null : World → Bool
data_is_null w = is_none w.data_buf

abbrev pub head_of : ℕ → Option (List ℕ) → List ℕ
head_of n none = []
head_of n (some mem) = take n mem

-- `slice::from_raw_parts(data_buf, n)`
abbrev pub data_bytes : ℕ → World → List ℕ
data_bytes n w = head_of n w.data_buf

-- Overwrites the data buffer from an offset on.
abbrev pub poke : ℕ → List ℕ → World → World
poke at src w = elim w.data_buf [
  | none ↦ w
  | some mem ↦ record w { buffers = record w.buffers { data_buf = some (splice at src mem) } }
]

abbrev pub set_data_len : ℕ → World → World
set_data_len n w = record w { buffers = record w.buffers { data_len = some n } }
