-- ===== src/Ops/Update.antt =====
-- ops/update.rs and delete.rs: Update, Update Chunk and Delete.
use wx_btrieve_sql_driver.Base.{
  List, Option, Str, [], and_then, codes, if◌then◌else◌, is_empty, join, leb, length, ltb, map,
  none, not, slice, some, splice, suc, zero, ℕ, ℤ, ◌%◌, ◌&&◌, ◌*◌, ◌++◌, ◌+◌, ◌-◌, ◌==◌, ◌^◌, ◌||◌,
  ◌∷◌,
}
use wx_btrieve_sql_driver.Client.{fetch_with, last_row}
use wx_btrieve_sql_driver.Dialect.{Backend, param_marker, quote_ident, select_with_limit}
use wx_btrieve_sql_driver.Floats.{Floats}
use wx_btrieve_sql_driver.Ops.Fetch.{Names, names_of, row_fields, with_row_lock}
use wx_btrieve_sql_driver.Ops.Insert.{is_autoinc}
use wx_btrieve_sql_driver.Record.Pack.{pack_row}
use wx_btrieve_sql_driver.Record.Unpack.{unpack_row_typed}
use wx_btrieve_sql_driver.Schema.{IntField, TableMeta, recnum_is_field}
use wx_btrieve_sql_driver.Sql.Filter.{u32_at}
use wx_btrieve_sql_driver.Sql.KeyWhere.{comparison, eq}
use wx_btrieve_sql_driver.SqlParam.{SqlValue, i64}
use wx_btrieve_sql_driver.Status.{btr_data_too_short, btr_invalid_pos}
use wx_btrieve_sql_driver.World.{
  M, Result, err, from_result, gets, leave_if, ok, ok_of, or_leave, panic, pure, settle, ◌>>=◌,
  ◌>>◌,
}
use wx_btrieve_sql_driver.World.Handles.{
  data_bytes, data_is_null, data_len_in, open_handle, posblk_key,
}

-- The columns that an UPDATE sets, with their fields; auto-assigned ones stay.
abbrev pub settable : TableMeta → List (Str × SqlValue) → List IntField → List (Str × SqlValue)
settable meta [] fs = []
settable meta (c ∷ cs) [] = []
settable meta (c ∷ cs) (f ∷ fs) =
    let rest = settable meta cs fs in if is_autoinc meta f then rest else c ∷ rest

abbrev assignments : Backend → ℕ → List (Str × SqlValue) → List Str
assignments b i [] = []
assignments b i (c ∷ cs) =
    (quote_ident b c.0 ++ codes " = " ++ param_marker b i) ∷ assignments b (i + 1) cs

unfoldable pub build_parameterized_update :
    Floats → Names → TableMeta → List ℕ → ℤ → Option (Str × List SqlValue)
build_parameterized_update fl names meta rec recnum =
    let cols = settable meta (unpack_row_typed fl meta.fields rec) meta.fields in
    let params = map (λ c. c.1) cols ++ i64 recnum ∷ [] in
    let sql =
      codes "UPDATE "
      ++ names.tref
      ++ codes " SET "
      ++ join (codes ", ") (assignments names.b 1 cols)
      ++ codes " WHERE "
      ++ names.rc
      ++ codes " = "
      ++ param_marker names.b (length params) in
    if is_empty cols then none else some (sql, params)

-- Writes a whole record over the row, under its lock.
abbrev write_row : ℕ → TableMeta → List ℕ → ℤ → M (Unit {0})
write_row hid meta rec recnum = do
  fl ← gets (λ w. w.floats)
  names ← gets (names_of meta)
  q ← or_leave (build_parameterized_update fl names meta rec recnum) btr_data_too_short
  with_row_lock hid recnum q.0 q.1

unfoldable pub op_update : M (Unit {0})
unfolding open_handle with_row_lock
op_update = do
  hid ← gets posblk_key
  h ← open_handle hid
  recnum ← or_leave h.last_recnum btr_invalid_pos
  dlen ← gets data_len_in
  absent ← gets data_is_null
  leave_if (absent || dlen == 0) btr_data_too_short
  rec ← gets (data_bytes dlen)
  write_row hid h.meta rec recnum

unfoldable pub op_delete : M (Unit {0})
unfolding open_handle with_row_lock
op_delete = do
  hid ← gets posblk_key
  h ← open_handle hid
  recnum ← or_leave h.last_recnum btr_invalid_pos
  names ← gets (names_of h.meta)
  with_row_lock hid recnum
      (codes "DELETE FROM "
        ++ names.tref
        ++ codes " WHERE "
        ++ names.rc
        ++ codes " = "
        ++ param_marker names.b 1)
      (i64 recnum ∷ [])

pub data Flavor : Type 0 where
  random rectangle truncate : Flavor

unfoldable pub flavor_of : ℕ → Option Flavor
flavor_of signature =
    if signature == 0
    then some random
    else if leb (2 ^ 31) signature && not (signature == 0xffff_fffe)
    then some rectangle
    else if signature == 0xffff_fffe || signature == 0x4000_0000
    then some truncate
    else none

-- The (offset, length) headers of the random flavour and the offset behind them.
unfoldable pub chunk_headers : List ℕ → ℕ → ℕ → Option (List (ℕ × ℕ) × ℕ)
chunk_headers desc off zero = some ([], off)
chunk_headers desc off (suc left) =
    let rest = chunk_headers desc (off + 8) left in
    if ltb (length desc) (off + 8) then none else elim rest [
      | none ↦ none
      | some (chunks, end) ↦ some ((u32_at desc off, u32_at desc (off + 4)) ∷ chunks, end)
    ]

-- `(first + i * stride, size)` for the `n` chunks from the `i`-th on; a `usize` has 32 bits.
abbrev pub rectangle_chunks : ℕ → ℕ → ℕ → ℕ → ℕ → List (ℕ × ℕ)
rectangle_chunks zero i first_off stride size = []
rectangle_chunks (suc n) i first_off stride size =
    ((first_off + i * stride) % 2 ^ 32, size) ∷ rectangle_chunks n (i + 1) first_off stride size

-- Copies the chunks' data, from `at` in the descriptor on, into the packed record. The ends are
-- `usize`s that wrap; a slice that ends before it starts panics, and so do slices of two lengths.
unfoldable pub apply_chunks : List ℕ → ℕ → List (ℕ × ℕ) → List ℕ → Result (List ℕ)
apply_chunks desc at [] packed = ok packed
apply_chunks desc at ((off, len) ∷ rest) packed =
    let data_end = (at + len) % 2 ^ 32 in
    let end = (off + len) % 2 ^ 32 in
    let size = data_end - at in
    let next = apply_chunks desc data_end rest (splice off (slice at size desc) packed) in
    if ltb (length desc) data_end
    then err btr_data_too_short
    else if ltb (length packed) end
    then err 103
    else if ltb data_end at || ltb end off || not (size == end - off)
    then panic
    else next

abbrev fields_or_panic : TableMeta → List Str → M (List Str)
fields_or_panic meta [] = from_result panic
fields_or_panic meta (c ∷ cs) = pure (row_fields meta (c ∷ cs))

-- The packed record of the current row.
abbrev current_record : TableMeta → ℤ → M (List ℕ)
current_record meta recnum = do
  names ← gets (names_of meta)
  let where_params = comparison names.b names.rc eq (i64 recnum) []
  r ← settle (
      fetch_with (select_with_limit names.b 1 names.cols names.tref where_params.0 [])
        where_params.1 (if recnum_is_field meta then length meta.fields else 1 + length meta.fields)
        1)
  row ← or_leave (and_then (ok_of r) last_row) btr_invalid_pos
  fields ← fields_or_panic meta row
  fl ← gets (λ w. w.floats)
  pure (pack_row fl meta.fields fields meta.record_length)

abbrev apply_and_write : ℕ → TableMeta → ℤ → List ℕ → List (ℕ × ℕ) → ℕ → M (Unit {0})
apply_and_write hid meta recnum desc chunks data_start = do
  packed ← current_record meta recnum
  changed ← from_result (apply_chunks desc data_start chunks packed)
  write_row hid meta changed recnum

unfoldable pub op_update_chunk : M (Unit {0})
unfolding open_handle with_row_lock fetch_with
op_update_chunk = do
  hid ← gets posblk_key
  h ← open_handle hid
  recnum ← or_leave h.last_recnum btr_invalid_pos
  dlen ← gets data_len_in
  absent ← gets data_is_null
  leave_if (absent || ltb dlen 12) btr_data_too_short
  desc ← gets (data_bytes dlen)
  flavor ← or_leave (flavor_of (u32_at desc 0)) 62
  elim flavor [
    | truncate ↦ leave_if (ltb (u32_at desc 4) h.meta.record_length) 28
    | random ↦ do
      parsed ← or_leave (chunk_headers desc 12 (u32_at desc 4)) 62
      apply_and_write hid h.meta recnum desc parsed.0 parsed.1
    | rectangle ↦ do
      leave_if (ltb (length desc) 20) btr_data_too_short
      apply_and_write hid h.meta recnum desc
          (rectangle_chunks (u32_at desc 4) 0 (u32_at desc 16) (u32_at desc 12) (u32_at desc 8)) 20
  ]
