-- ===== src/Record/Unpack.antt =====
-- record.rs `unpack_row_typed`: a record into (column name, typed value) pairs.
use wx_btrieve_sql_driver.Base.{
  Bool, List, Option, Str, [], all, and_then, codes, from_le_bytes, from_utf8_lossy, get_or,
  if◌then◌else◌, is_empty, leb, length, ltb, map, none, not, show_padded, some, take_while, trim,
  trim_end, unwrap_or, ℕ, ◌%◌, ◌&&◌, ◌*◌, ◌++◌, ◌+◌, ◌/◌, ◌==◌, ◌||◌, ◌∷◌,
}
use wx_btrieve_sql_driver.Floats.{Floats, is_finite, is_subnormal}
use wx_btrieve_sql_driver.Record.Slices.{
  field_slice, le_i64, le_int, try_le_array, type_autoinc, type_date, type_decimal, type_float,
  type_int, type_logical, type_money, type_string, type_time, type_zstring,
}
use wx_btrieve_sql_driver.Schema.{IntField}
use wx_btrieve_sql_driver.SqlParam.{SqlValue, bool, f64, i64, null, text}

-- `slice.iter().position(|&b| b == 0)` and the bytes before it
abbrev pub before_nul : List ℕ → List ℕ
before_nul bytes = take_while (λ b. not (b == 0)) bytes

abbrev pub all_zero : List ℕ → Bool
all_zero bytes = all (λ b. b == 0) bytes

abbrev pub date_text : ℕ → ℕ → ℕ → Str
date_text year month day =
    show_padded 4 year ++ codes "-" ++ show_padded 2 month ++ codes "-" ++ show_padded 2 day

abbrev pub time_text : ℕ → Str
time_text t =
    show_padded 2 (t / 1_000_000 % 100)
    ++ codes ":"
    ++ show_padded 2 (t / 10_000 % 100)
    ++ codes ":"
    ++ show_padded 2 (t / 100 % 100)

-- The text of a DATE slice that holds a plausible date.
unfoldable pub unpack_date : List ℕ → Option Str
unpack_date bytes =
    let day = get_or bytes 0 0 in
    let month = get_or bytes 1 0 in
    let year = get_or bytes 2 0 + 256 * get_or bytes 3 0 in
    if leb 4 (length bytes) && not (all_zero bytes)
    then (if ltb 0 year && (leb 1 month && leb month 12) && (leb 1 day && leb day 31)
        then some (date_text year month day)
        else none)
    else none

abbrev pub default_text : IntField → SqlValue
default_text f = elim f.default_value [ none ↦ null | some d ↦ text d ]

-- The float in a slice of 4 or 8 bytes, as an `f64`.
abbrev pub float_of : Floats → List ℕ → Option ℕ
float_of fl bytes =
    if length bytes == 4
    then and_then (try_le_array 4 bytes) (λ b. some (fl.f32_to_f64 (from_le_bytes b)))
    else if length bytes == 8
    then and_then (try_le_array 8 bytes) (λ b. some (from_le_bytes b))
    else none

abbrev normal_or : ℕ → Option ℕ → ℕ
normal_or d none = d
normal_or d (some v) = if is_finite v && not (is_subnormal v) then v else d

unfoldable pub unpack_float : Floats → IntField → List ℕ → SqlValue
unpack_float fl f bytes =
    let d = unwrap_or (and_then f.default_value (λ s. fl.parse_f64 (trim s))) 0 in
    if is_empty bytes || all_zero bytes then f64 d else f64 (normal_or d (float_of fl bytes))

unfoldable pub unpack_time : List ℕ → SqlValue
unpack_time bytes =
    text (time_text (from_le_bytes (unwrap_or (try_le_array 4 bytes) (0 ∷ 0 ∷ 0 ∷ 0 ∷ []))))

unfoldable pub unpack_other : IntField → List ℕ → SqlValue
unpack_other f bytes = if all_zero bytes then default_text f else text (trim_end bytes)

-- The `match` on the native type.
unfoldable pub unpack_slot : Floats → IntField → List ℕ → SqlValue
unpack_slot fl f bytes =
    let t = f.native_type in
    if t == type_string
    then text bytes
    else if t == type_zstring
    then text (from_utf8_lossy (before_nul bytes))
    else if t == type_int || t == type_autoinc
    then i64 (le_int bytes)
    else if t == type_float
    then unpack_float fl f bytes
    else if t == type_money
    then f64 (fl.from_units (le_i64 bytes))
    else if t == type_logical
    then bool (not (get_or bytes 0 0 == 0))
    else if t == type_date
    then elim (unpack_date bytes) [ none ↦ default_text f | some s ↦ text s ]
    else if t == type_time
    then unpack_time bytes
    else if t == type_decimal
    then i64 (le_i64 bytes)
    else unpack_other f bytes

unfoldable pub unpack_row_typed : Floats → List IntField → List ℕ → List (Str × SqlValue)
unpack_row_typed fl fields rec =
    map (λ f. (f.name, unpack_slot fl f (field_slice rec f.offset f.length))) fields
