-- ===== src/Ops/Index.antt =====
-- ops/index.rs and create.rs: Create Index, Drop Index and Create.
use wx_btrieve_sql_driver.Base.{
  Bool, List, Option, Str, [], and_then, codes, false, filter_map, find, get_elem?, get_or,
  if◌then◌else◌, is_digit, is_empty, join, keep, leb, length, lookup, ltb, map, max, nat_eq, none,
  not, replace_char, replicate, show_nat, show_padded, some, suc, sum, text_eq, to_ascii_lowercase,
  to_ascii_uppercase, true, unwrap_or, zero, ℕ, ◌%◌, ◌&&◌, ◌*◌, ◌++◌, ◌+◌, ◌-◌, ◌/◌, ◌==◌, ◌||◌,
  ◌∷◌,
}
use wx_btrieve_sql_driver.Client.{execute_with}
use wx_btrieve_sql_driver.Dialect.{
  Backend, create_table_if_not_exists, drop_index_sql, identity_column, quote_ident,
}
use wx_btrieve_sql_driver.Ops.Fetch.{Names, names_of}
use wx_btrieve_sql_driver.Schema.{IntField, RuntimeIndex, TableMeta}
use wx_btrieve_sql_driver.Sql.Filter.{u16_at}
use wx_btrieve_sql_driver.Status.{btr_data_too_short, btr_invalid_key_num}
use wx_btrieve_sql_driver.World.{
  HandleEntry, M, gets, leave_if, or_leave, pure, settle, update, ◌>>=◌, ◌>>◌,
}
use wx_btrieve_sql_driver.World.Handles.{
  clone_table_meta, data_bytes, data_is_null, data_len_in, keybuf_cstr, modify_handle, posblk_key,
}

-- (1-based position, length, descending) of the segments: 16 bytes each, until the SEG flag is
-- clear or the bytes run out. The fuel is the number of bytes.
pub record KeySegment : Type 0 where
  pub at : ℕ
  pub len : ℕ
  pub descending : Bool

abbrev has_flag : ℕ → ℕ → Bool
has_flag flags bit = flags / bit % 2 == 1

unfoldable pub segments_from : ℕ → List ℕ → ℕ → List KeySegment
segments_from zero desc off = []
segments_from (suc fuel) desc off =
    let flags = u16_at desc (off + 4) in
    let rest = segments_from fuel desc (off + 16) in
    let seg : KeySegment = record {
      at = u16_at desc off;
      len = u16_at desc (off + 2);
      descending = has_flag flags 0x40;
    } in
    if ltb (length desc) (off + 16)
    then []
    else if has_flag flags 0x10
    then seg ∷ rest
    else seg ∷ []

unfoldable pub key_segments : List ℕ → List KeySegment
unfolding segments_from
key_segments desc = segments_from (length desc) desc 0

abbrev segment_field : TableMeta → KeySegment → Option IntField
segment_field meta seg =
    find (λ f. f.offset == seg.at - 1 && (f.length == seg.len || seg.len == 0)) meta.fields

-- Each known segment's field with the segment; unknown ones are skipped.
abbrev known_segments : TableMeta → List KeySegment → List (IntField × KeySegment)
known_segments meta segs = filter_map (λ s. and_then (segment_field meta s) (λ f. some (f, s))) segs

abbrev max_num : List RuntimeIndex → ℕ
max_num [] = 0
max_num (ix ∷ ixs) = max ix.num (max_num ixs)

abbrev index_name : TableMeta → ℕ → Str
index_name meta num =
    codes "wxbtrv_"
    ++ to_ascii_lowercase (replace_char 32 (codes "_") meta.table_name)
    ++ codes "_"
    ++ show_nat num

abbrev col_item : Backend → IntField × KeySegment → Str
col_item b (f, s) = quote_ident b f.name ++ (if s.descending then codes " DESC" else [])

abbrev create_index_sql : Names → TableMeta → ℕ → List (IntField × KeySegment) → Str
create_index_sql names meta num known =
    codes "CREATE INDEX "
    ++ quote_ident names.b (index_name meta num)
    ++ codes " ON "
    ++ names.tref
    ++ codes " ("
    ++ join (codes ", ") (map (col_item names.b) known)
    ++ codes ")"

abbrev pub new_index : ℕ → List KeySegment → List (IntField × KeySegment) → RuntimeIndex
new_index num segs known = record {
  num = num;
  field_nums = map (λ k. k.0.num) known;
  attrs = replicate (length known) 0;
  desc = map (λ k. k.1.descending) known;
  null_values = replicate (length known) 0;
  key_len = sum (map (λ s. s.len) segs);
}

abbrev with_indexes : List RuntimeIndex → HandleEntry → HandleEntry
with_indexes ixs h = record h { meta = record h.meta { indexes = ixs } }

unfoldable pub op_create_index : M (Unit {0})
unfolding clone_table_meta execute_with modify_handle
op_create_index = do
  hid ← gets posblk_key
  meta ← clone_table_meta hid
  dlen ← gets data_len_in
  absent ← gets data_is_null
  leave_if (absent || ltb dlen 16) btr_data_too_short
  segs ← gets (λ w. key_segments (data_bytes dlen w))
  leave_if (is_empty segs) btr_data_too_short
  let known = known_segments meta segs
  leave_if (is_empty known) btr_invalid_key_num
  leave_if (leb 119 (length meta.indexes)) 26
  names ← gets (names_of meta)
  let num = max_num meta.indexes + 1
  execute_with (create_index_sql names meta num known) []
  update (modify_handle hid λ h. with_indexes (h.meta.indexes ++ new_index num segs known ∷ []) h)

-- `key_num as usize` of the `i16`: a negative number is past every index.
unfoldable pub op_drop_index : ℕ → M (Unit {0})
unfolding clone_table_meta execute_with modify_handle
op_drop_index key_num = do
  hid ← gets posblk_key
  meta ← clone_table_meta hid
  ix ←
      or_leave (if ltb key_num 0x8000 then get_elem? meta.indexes key_num else none)
        btr_invalid_key_num
  names ← gets (names_of meta)
  settle (
      execute_with
        (drop_index_sql names.b (quote_ident names.b (index_name meta ix.num)) names.tref) [])
  update (modify_handle hid λ h. with_indexes (keep (λ i. not (i.num == ix.num)) h.meta.indexes) h)

abbrev is_alphanumeric : ℕ → Bool
is_alphanumeric c = is_digit c || (leb 65 c && leb c 90) || (leb 97 c && leb c 122)

abbrev pub safe_name : Str → Str
safe_name s = map (λ c. if is_alphanumeric c || c == 95 then c else 95) s

abbrev sql_type_of : ℕ → ℕ → Str
sql_type_of ext_type len =
    if ext_type == 0
    then codes "VARCHAR(" ++ show_nat (max len 1) ++ codes ")"
    else if ext_type == 1
    then codes "INT"
    else if ext_type == 3
    then codes "REAL"
    else if ext_type == 9
    then codes "DATE"
    else if ext_type == 10
    then codes "TIME"
    else codes "VARBINARY(" ++ show_nat (max len 1) ++ codes ")"

-- The loop over the segment specs: at most `left` columns.
unfoldable pub create_columns : Backend → List ℕ → ℕ → ℕ → ℕ → List Str
create_columns b desc zero off col_idx = []
create_columns b desc (suc left) off col_idx =
    let rest = create_columns b desc left (off + 16) (col_idx + 1) in
    if ltb (length desc) (off + 16)
    then []
    else (quote_ident b (codes "col_" ++ show_padded 2 col_idx)
        ++ codes " "
        ++ sql_type_of (get_or desc (off + 10) 0) (u16_at desc (off + 2)))
      ∷ rest

abbrev or_default_column : Backend → List Str → List Str
or_default_column b [] = (quote_ident b (codes "col_00") ++ codes " VARCHAR(255)") ∷ []
or_default_column b (c ∷ cs) = c ∷ cs

-- The statement's result is ignored.
unfoldable pub op_create : ℕ → M (Unit {0})
unfolding execute_with keybuf_cstr create_columns
op_create key_num = do
  path ← gets keybuf_cstr
  dlen ← gets data_len_in
  absent ← gets data_is_null
  leave_if (absent || ltb dlen 16) btr_data_too_short
  desc ← gets (data_bytes dlen)
  base ←
      gets (λ w. to_ascii_lowercase (unwrap_or (w.paths.file_stem path) (codes "wxbtrv_created")))
  let table_name = safe_name base
  known ← gets (λ w. lookup (to_ascii_uppercase table_name) w.tables)
  leave_if (key_num == 0xffff && elim known [ none ↦ false | some m ↦ true ]) 59
  b ← gets (λ w. w.settings.backend)
  let cols = or_default_column b (create_columns b desc (u16_at desc 4 * 4) 16 0)
  let with_id =
      quote_ident b (codes "btrv_row")
      ++ codes " "
      ++ identity_column b
      ++ codes ", "
      ++ join (codes ", ") cols
  settle (execute_with (create_table_if_not_exists b (quote_ident b table_name) with_id) [])
  pure tt
