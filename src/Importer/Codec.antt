-- ===== src/Importer/Codec.antt =====
-- crates/btr-types/src/codec.rs: a raw record as (column, SQL literal) pairs.
pub mod Literals
pub mod Driver
use wx_btrieve_sql_driver.Base.{
  List, Option, Str, [], codes, from_le_bytes, from_utf8_lossy, get_or, if◌then◌else◌, leb, length,
  none, not, replace_char, show_int, slice, some, take, trim_end, unwrap_or, ℕ, ◌%◌, ◌&&◌, ◌++◌,
  ◌+◌, ◌-◌, ◌==◌, ◌^◌, ◌||◌, ◌∷◌,
}
use wx_btrieve_sql_driver.Floats.{Floats, f32_is_plain, is_finite, is_subnormal}
use wx_btrieve_sql_driver.Record.Slices.{
  le_i64, le_int, type_autoinc, type_autoincrement, type_date, type_decimal, type_float, type_int,
  type_logical, type_lstring, type_money, type_string, type_time, type_zstring, type_zstring_12,
}
use wx_btrieve_sql_driver.Record.Unpack.{all_zero, before_nul, time_text, unpack_date}
use wx_btrieve_sql_driver.Schema.{IntField}

-- The bytes of a field; a sum that wraps below its start panics, which is `none`.
unfoldable pub field_bytes : List ℕ → ℕ → ℕ → Option (List ℕ)
field_bytes rec offset len =
    let end = (offset + len) % 2 ^ 32 in
    if leb end (length rec)
    then (if leb offset end then some (slice offset (end - offset) rec) else none)
    else some []

-- `format!("'{}'", s.replace('\'', "''"))`
unfoldable pub quoted_text : Str → Str
quoted_text s = 39 ∷ (replace_char 39 (39 ∷ 39 ∷ []) s ++ 39 ∷ [])

-- `format!("'{}'", d)`, or NULL
abbrev pub default_literal : IntField → Str
default_literal f = elim f.default_value [ none ↦ codes "NULL" | some d ↦ 39 ∷ (d ++ 39 ∷ []) ]

-- The text of an LSTRING: as many bytes as the first one says.
abbrev pub lstring_bytes : List ℕ → List ℕ
lstring_bytes [] = []
lstring_bytes (len ∷ bytes) = take len bytes

unfoldable pub float_literal : Floats → IntField → List ℕ → Str
float_literal fl f bytes =
    let default = unwrap_or f.default_value (codes "0") in
    let bits = from_le_bytes bytes in
    if all_zero bytes
    then default
    else if length bytes == 4
    then (if f32_is_plain bits then fl.fixed_f32 6 bits else default)
    else if length bytes == 8
    then (if is_finite bits && not (is_subnormal bits) then fl.fixed_f64 10 bits else default)
    else default

abbrev pub dated : IntField → Option Str → Str
dated f none = default_literal f
dated f (some d) = 39 ∷ (d ++ 39 ∷ [])

unfoldable pub date_literal : IntField → List ℕ → Str
date_literal f bytes = dated f (unpack_date bytes)

abbrev pub time_literal : List ℕ → Str
time_literal bytes =
    if leb 4 (length bytes)
    then 39 ∷ (time_text (from_le_bytes (take 4 bytes)) ++ 39 ∷ [])
    else codes "'00:00:00'"

-- The `match` on the native type.
unfoldable pub literal_of : Floats → IntField → List ℕ → Str
literal_of fl f bytes =
    let t = f.native_type in
    if t == type_string
    then quoted_text (trim_end bytes)
    else if t == type_lstring
    then quoted_text (trim_end (from_utf8_lossy (lstring_bytes bytes)))
    else if t == type_zstring || t == type_zstring_12
    then quoted_text (trim_end (from_utf8_lossy (before_nul bytes)))
    else if t == type_int || t == type_autoinc || t == type_autoincrement
    then show_int (le_int bytes)
    else if t == type_float
    then float_literal fl f bytes
    else if t == type_money
    then fl.fixed_f64 4 (fl.from_units (le_i64 bytes))
    else if t == type_logical
    then (if get_or bytes 0 0 == 0 then codes "0" else codes "1")
    else if t == type_date
    then date_literal f bytes
    else if t == type_time
    then time_literal bytes
    else if t == type_decimal
    then show_int (le_i64 bytes)
    else if all_zero bytes
    then default_literal f
    else quoted_text (trim_end bytes)

abbrev cons_cell : Str → Option Str → Option (List (Str × Str)) → Option (List (Str × Str))
cons_cell name none rest = none
cons_cell name (some v) none = none
cons_cell name (some v) (some rest) = some ((name, v) ∷ rest)

abbrev literal_in : Floats → IntField → Option (List ℕ) → Option Str
literal_in fl f none = none
literal_in fl f (some bytes) = some (literal_of fl f bytes)

unfoldable pub unpack_row : Floats → List IntField → List ℕ → Option (List (Str × Str))
unpack_row fl [] rec = some []
unpack_row fl (f ∷ fs) rec =
    cons_cell f.name (literal_in fl f (field_bytes rec f.offset f.length)) (unpack_row fl fs rec)

-- `type_name`
unfoldable pub type_name : ℕ → Str
type_name t =
    if t == type_string
    then codes "STRING"
    else if t == type_int
    then codes "INT"
    else if t == type_float
    then codes "FLOAT"
    else if t == type_date
    then codes "DATE"
    else if t == type_time
    then codes "TIME"
    else if t == type_decimal
    then codes "DECIMAL"
    else if t == type_money
    then codes "MONEY"
    else if t == type_logical
    then codes "LOGICAL"
    else if t == type_lstring
    then codes "LSTRING"
    else if t == type_zstring
    then codes "ZSTRING"
    else if t == type_zstring_12
    then codes "ZSTRING12"
    else if t == type_autoinc
    then codes "AUTOINC"
    else if t == type_autoincrement
    then codes "AUTOINCREMENT"
    else codes "UNKNOWN"

-- `sql_type`
unfoldable pub sql_type : ℕ → ℕ → Str
sql_type t len =
    if t == type_string || t == type_lstring || t == type_zstring || t == type_zstring_12
    then codes "VARCHAR"
    else if t == type_int
    then (if len == 1
        then codes "TINYINT"
        else if len == 2
        then codes "SMALLINT"
        else if len == 4
        then codes "INT"
        else codes "BIGINT")
    else if t == type_autoinc || t == type_autoincrement
    then codes "INT"
    else if t == type_float
    then (if leb len 4 then codes "REAL" else codes "FLOAT")
    else if t == type_date
    then codes "DATE"
    else if t == type_time
    then codes "TIME(0)"
    else if t == type_decimal
    then codes "DECIMAL(18,0)"
    else if t == type_money
    then codes "DECIMAL(18,4)"
    else if t == type_logical
    then codes "TINYINT"
    else codes "VARBINARY"
