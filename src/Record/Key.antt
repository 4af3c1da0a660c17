-- ===== src/Record/Key.antt =====
-- record.rs `unpack_key_fields`: the key buffer's segments into optional bound values. `none` is
-- the null wildcard.
use wx_btrieve_sql_driver.Base.{
  Bool, List, Option, Str, [], all, drop, from_le_bytes, get_or, if◌then◌else◌, is_empty, length,
  ltb, min, none, not, slice, some, trim_end, unwrap_or, ℕ, ◌&&◌, ◌+◌, ◌-◌, ◌==◌, ◌||◌, ◌∷◌,
}
use wx_btrieve_sql_driver.Floats.{Floats}
use wx_btrieve_sql_driver.Record.Slices.{
  checked_add, le_i64, le_int, saturating_add, try_le_array, type_autoinc, type_autoincrement,
  type_date, type_decimal, type_float, type_int, type_logical, type_lstring, type_money,
  type_string, type_time, type_zstring, type_zstring_12,
}
use wx_btrieve_sql_driver.Record.Unpack.{all_zero, before_nul, float_of, time_text, unpack_date}
use wx_btrieve_sql_driver.Schema.{IntField, RuntimeIndex, field_map_get}
use wx_btrieve_sql_driver.SqlParam.{SqlValue, bool, f64, i64, null, text}

abbrev key_text : ℕ → List ℕ → SqlValue
key_text t bytes =
    text (before_nul (if t == type_lstring && not (is_empty bytes) then drop 1 bytes else bytes))

abbrev key_time : List ℕ → SqlValue
key_time bytes =
    if all_zero bytes
    then null
    else elim (try_le_array 4 bytes) [ none ↦ null | some b ↦ text (time_text (from_le_bytes b)) ]

-- The `match` on the native type.
unfoldable pub key_value : Floats → IntField → List ℕ → SqlValue
key_value fl f bytes =
    let t = f.native_type in
    if t == type_string || t == type_zstring || t == type_zstring_12 || t == type_lstring
    then key_text t bytes
    else if t == type_int || t == type_autoinc || t == type_autoincrement
    then i64 (le_int bytes)
    else if t == type_date
    then elim (unpack_date bytes) [ none ↦ null | some s ↦ text s ]
    else if t == type_time
    then key_time bytes
    else if t == type_float
    then f64 (unwrap_or (float_of fl bytes) 0)
    else if t == type_money
    then f64 (fl.from_units (le_i64 bytes))
    else if t == type_decimal
    then i64 (le_i64 bytes)
    else if t == type_logical
    then bool (not (get_or bytes 0 0 == 0))
    else text (trim_end (before_nul bytes))

-- The bytes of the segment at `kb_offset`: short or empty where the buffer ends.
abbrev segment : List ℕ → ℕ → ℕ → List ℕ
segment key_buffer kb_offset flen =
    let end =
      min (unwrap_or (checked_add kb_offset flen) (length key_buffer)) (length key_buffer) in
    if ltb kb_offset (length key_buffer) then slice kb_offset (end - kb_offset) key_buffer else []

abbrev is_wildcard : Bool → ℕ → List ℕ → Bool
is_wildcard null_wildcard null_byte bytes =
    null_wildcard && not (is_empty bytes) && all (λ b. b == null_byte) bytes

-- The loop over the index's segments; `seg_idx` counts them all, also those of unknown fields.
unfoldable pub unpack_segments :
    Floats → List IntField → List ℕ → List ℕ → Bool → ℕ → ℕ → List ℕ → List (Str × Option SqlValue)
unpack_segments fl fields nulls key_buffer wild seg_idx kb_offset [] = []
unpack_segments fl fields nulls key_buffer wild seg_idx kb_offset (fnum ∷ rest) =
    elim (field_map_get fields fnum) [
      | none ↦ unpack_segments fl fields nulls key_buffer wild (seg_idx + 1) kb_offset rest
      | some f ↦
          let bytes = segment key_buffer kb_offset f.length in
          let value =
            if is_wildcard wild (get_or nulls seg_idx 0) bytes
            then none
            else some (key_value fl f bytes) in
          (f.name, value)
          ∷ unpack_segments fl fields nulls key_buffer wild (seg_idx + 1)
              (saturating_add kb_offset f.length) rest
    ]

unfoldable pub unpack_key_fields :
    Floats → List IntField → RuntimeIndex → List ℕ → Bool → List (Str × Option SqlValue)
unfolding unpack_segments
unpack_key_fields fl fields index key_buffer null_wildcard =
    unpack_segments fl fields index.null_values key_buffer null_wildcard 0 0 index.field_nums
