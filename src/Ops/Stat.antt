-- ===== src/Ops/Stat.antt =====
-- ops/stat.rs: Stat and Stat Extended.
use wx_btrieve_sql_driver.Base.{
  Bool, List, Option, Str, [], and_then, codes, false, filter_map, get_elem?, get_or, if◌then◌else◌,
  is_empty, join, leb, length, lookup, ltb, map, min, nat_eq, none, parse_unsigned, replicate, some,
  splice, sum, take, text_eq, to_le_bytes, trim, true, unwrap_or, ℕ, ◌%◌, ◌*◌, ◌++◌, ◌+◌, ◌-◌, ◌==◌,
  ◌^◌, ◌||◌, ◌∷◌,
}
use wx_btrieve_sql_driver.Client.{fetch_with, first_cell}
use wx_btrieve_sql_driver.Dialect.{quote_ident}
use wx_btrieve_sql_driver.Ops.Fetch.{Names, names_of}
use wx_btrieve_sql_driver.Schema.{IntField, RuntimeIndex, TableMeta, field_map_get}
use wx_btrieve_sql_driver.Status.{btr_data_too_short}
use wx_btrieve_sql_driver.World.{
  HandleEntry, M, World, from_result, gets, leave, leave_if, ok_of, or_leave, panic, pure, settle,
  update, ◌>>=◌, ◌>>◌,
}
use wx_btrieve_sql_driver.World.Handles.{
  data_bytes, data_is_null, data_len_in, open_handle, poke, posblk_key, set_data_len,
}

abbrev pub total_segments : TableMeta → ℕ
total_segments meta = sum (map (λ ix. length ix.field_nums) meta.indexes)

abbrev pub stat_size : TableMeta → ℕ → ℕ
stat_size meta cap = min (16 + 16 * total_segments meta) cap

-- The attribute word of a segment with none in the metadata.
abbrev computed_attr : IntField → Bool → ℕ
computed_attr f is_last =
    0x0103 + (if f.native_type == 0 then 0 else 0x0004) + (if is_last then 0 else 0x0010)

abbrev pub key_spec : ℕ → IntField → ℕ → ℕ → List ℕ
key_spec rec_count f attr ki =
    to_le_bytes 2 (f.offset + 1)
    ++ to_le_bytes 2 f.length
    ++ to_le_bytes 2 attr
    ++ to_le_bytes 4 rec_count
    ++ (f.native_type % 256) ∷ []

-- The loop over an index's segments, `si` the segment, `off` its place; `break` at the first that
-- does not fit. The 3 bytes between the type and the key number stay zero.
unfoldable pub write_segments :
    TableMeta → RuntimeIndex → ℕ → ℕ → ℕ → List ℕ → List ℕ → ℕ → List ℕ × ℕ
write_segments meta ix rec_count ki si [] buf off = (buf, off)
write_segments meta ix rec_count ki si (fnum ∷ rest) buf off =
    let skip = write_segments meta ix rec_count ki (si + 1) rest buf (off + 16) in
    if ltb (length buf) (off + 16) then (buf, off) else elim (field_map_get meta.fields fnum) [
      | none ↦ skip
      | some f ↦
          let attr = unwrap_or (get_elem? ix.attrs si) (computed_attr f (is_empty rest)) in
          let spec = splice off (key_spec rec_count f attr ki) buf in
          write_segments meta ix rec_count ki (si + 1) rest
            (splice (off + 14) ((ki % 256) ∷ []) spec) (off + 16)
    ]

unfoldable pub write_indexes : TableMeta → ℕ → ℕ → List RuntimeIndex → List ℕ → ℕ → List ℕ
unfolding write_segments
write_indexes meta rec_count ki [] buf off = buf
write_indexes meta rec_count ki (ix ∷ ixs) buf off =
    let done = write_segments meta ix rec_count ki 0 ix.field_nums buf off in
    write_indexes meta rec_count (ki + 1) ixs done.0 done.1

-- The parts of the header, each with its place.
abbrev pub stat_header : TableMeta → ℕ → List (ℕ × List ℕ)
stat_header meta rec_count =
    (0, to_le_bytes 2 meta.record_length)
    ∷ (2, to_le_bytes 2 meta.page_size)
    ∷ (4, to_le_bytes 2 (length meta.indexes))
    ∷ (6, to_le_bytes 4 rec_count)
    ∷ (10, to_le_bytes 2 meta.file_flags)
    ∷ []

-- `buf[at..at + src.len()].copy_from_slice(src)`, which panics behind the end.
abbrev pub copy_from_slice : ℕ → List ℕ → List ℕ → M (List ℕ)
copy_from_slice at src buf =
    if ltb (length buf) (at + length src) then from_result panic else pure (splice at src buf)

abbrev pub copy_parts : List (ℕ × List ℕ) → List ℕ → M (List ℕ)
copy_parts [] buf = pure buf
copy_parts ((at, src) ∷ parts) buf = do b ← copy_from_slice at src buf; copy_parts parts b

-- A count as a `u32`, 0 where the query or its parsing fails.
abbrev pub count_u32 : (Str → Str) → Str → M ℕ
count_u32 clean sql = do
  r ← settle (fetch_with sql [] 1 1)
  let n = and_then (and_then (ok_of r) first_cell) (λ s. parse_unsigned (2 ^ 64 - 1) (clean s))
  pure (unwrap_or n 0 % 2 ^ 32)

abbrev pub write_stat : TableMeta → ℕ → ℕ → List ℕ → M (Unit {0})
write_stat meta out_size n buf = do
  update (poke 0 (write_indexes meta n 0 meta.indexes buf 16))
  update (set_data_len out_size)

abbrev pub fill_stat : TableMeta → ℕ → M (Unit {0})
fill_stat meta cap = do
  names ← gets (names_of meta)
  n ← count_u32 (λ s. s) (codes "SELECT COUNT(*) FROM " ++ names.tref)
  buf ← copy_parts (stat_header meta n) (replicate (stat_size meta cap) 0)
  write_stat meta (stat_size meta cap) n buf

abbrev pub stat_into : TableMeta → Bool → Option ℕ → M (Unit {0})
stat_into meta true cap = pure tt
stat_into meta false none = pure tt
stat_into meta false (some cap) = if cap == 0 then pure tt else fill_stat meta cap

abbrev pub stat_handle : Option HandleEntry → M (Unit {0})
stat_handle none = pure tt
stat_handle (some h) = do
  absent ← gets data_is_null
  cap ← gets (λ w. w.data_len)
  stat_into h.meta absent cap

-- A handle that is not open, or a missing buffer, gives 0 too.
unfoldable pub op_stat : M (Unit {0})
unfolding fetch_with
op_stat = do hid ← gets posblk_key; h ← gets (λ w. lookup hid w.handles); stat_handle h

abbrev distinct_sql : Str → List Str → Str
distinct_sql tref [] = []
distinct_sql tref (c ∷ []) = codes "SELECT COUNT(DISTINCT " ++ c ++ codes ") FROM " ++ tref
distinct_sql tref (c ∷ d ∷ rest) =
    codes "SELECT COUNT(*) FROM (SELECT DISTINCT "
    ++ join (codes ", ") (c ∷ d ∷ rest)
    ++ codes " FROM "
    ++ tref
    ++ codes ") x"

abbrev unique_count : Names → TableMeta → RuntimeIndex → M ℕ
unique_count names meta ix =
    let cols =
      map (λ f. quote_ident names.b f.name)
        (filter_map (field_map_get meta.fields) ix.field_nums) in
    if is_empty cols then pure 0 else count_u32 trim (distinct_sql names.tref cols)

-- Patches the count of unique values into the specs of one index's segments.
abbrev patch_segments : ℕ → ℕ → List ℕ → ℕ → World → World
patch_segments written n [] seg_off w = w
patch_segments written n (s ∷ segs) seg_off w =
    patch_segments written n segs (seg_off + 16)
      (if leb (seg_off + 10) written then poke (seg_off + 6) (to_le_bytes 4 n) w else w)

unfoldable pub patch_indexes : Names → TableMeta → ℕ → List RuntimeIndex → ℕ → M (Unit {0})
unfolding fetch_with
patch_indexes names meta written [] seg_off = pure tt
patch_indexes names meta written (ix ∷ ixs) seg_off = do
  n ← unique_count names meta ix
  update (patch_segments written n ix.field_nums seg_off)
  patch_indexes names meta written ixs (seg_off + 16 * length ix.field_nums)

abbrev system_data : List ℕ
system_data = 0 ∷ 0xff ∷ 0 ∷ 0 ∷ 0 ∷ 0 ∷ 0 ∷ 0 ∷ 0 ∷ 0 ∷ []

unfoldable pub stat_basic : ℕ → M (Unit {0})
unfolding open_handle op_stat patch_indexes
stat_basic hid = do
  op_stat
  e ← open_handle hid
  written ← gets data_len_in
  names ← gets (names_of e.meta)
  patch_indexes names e.meta written e.meta.indexes 16

unfoldable pub stat_system : ℕ → M (Unit {0})
stat_system cap = do
  update (poke 0 (take (min 10 cap) system_data))
  update (set_data_len (min 10 cap))

unfoldable pub op_stat_extended : M (Unit {0})
unfolding open_handle stat_basic stat_system
op_stat_extended = do
  hid ← gets posblk_key
  h ← open_handle hid
  absent ← gets data_is_null
  len ← gets (λ w. w.data_len)
  cap ← or_leave len btr_data_too_short
  leave_if (absent || cap == 0) btr_data_too_short
  subfn ← gets (λ w. get_or (data_bytes cap w) 0 0)
  if subfn == 0 then stat_basic hid else if subfn == 1 then stat_system cap else leave 62
