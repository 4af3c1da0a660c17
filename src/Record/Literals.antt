-- ===== src/Record/Literals.antt =====
-- record.rs: `unpack_row`, which makes SQL literals, and `build_where_clause`.
use wx_btrieve_sql_driver.Base.{
  Bool, List, Option, Str, [], codes, from_le_bytes, from_utf8_lossy, get_or, if◌then◌else◌,
  is_empty, join, length, map, none, not, replace_char, show_int, signed, some, trim_end, unwrap_or,
  ℕ, ◌&&◌, ◌++◌, ◌==◌, ◌^◌, ◌||◌, ◌∷◌,
}
use wx_btrieve_sql_driver.Floats.{Floats, f32_is_plain, is_finite, is_subnormal}
use wx_btrieve_sql_driver.Record.Slices.{
  field_slice, le_i64, le_int, try_le_array, type_autoinc, type_date, type_decimal, type_float,
  type_int, type_logical, type_money, type_string, type_time, type_zstring,
}
use wx_btrieve_sql_driver.Record.Unpack.{all_zero, before_nul, time_text, unpack_date}
use wx_btrieve_sql_driver.Schema.{IntField}

abbrev pub quoted_default : IntField → Str
quoted_default f = elim f.default_value [ none ↦ codes "NULL" | some d ↦ 39 ∷ (d ++ 39 ∷ []) ]

abbrev pub in_quotes : Str → Str
in_quotes s = 39 ∷ (replace_char 39 (39 ∷ 39 ∷ []) s ++ 39 ∷ [])

abbrev pub plain_float : Str → Option (List ℕ) → (ℕ → Bool) → (ℕ → Str) → Str
plain_float default none is_plain show = default
plain_float default (some b) is_plain show =
    if is_plain (from_le_bytes b) then show (from_le_bytes b) else default

unfoldable pub slot_float : Floats → IntField → List ℕ → Str
slot_float fl f bytes =
    let default = unwrap_or f.default_value (codes "0") in
    if is_empty bytes || all_zero bytes
    then default
    else if length bytes == 4
    then plain_float default (try_le_array 4 bytes) f32_is_plain (fl.fixed_f32 6)
    else if length bytes == 8
    then plain_float default (try_le_array 8 bytes) (λ v. is_finite v && not (is_subnormal v))
        (fl.fixed_f64 10)
    else default

abbrev pub or_default : IntField → Option Str → Str
or_default f none = quoted_default f
or_default f (some d) = 39 ∷ (d ++ 39 ∷ [])

abbrev pub time_or_midnight : Option (List ℕ) → Str
time_or_midnight none = codes "'00:00:00'"
time_or_midnight (some b) = 39 ∷ (time_text (from_le_bytes b) ++ 39 ∷ [])

abbrev pub slot_decimal : List ℕ → Option (List ℕ) → Str
slot_decimal bytes none = show_int (le_i64 bytes)
slot_decimal bytes (some b) = show_int (signed (2 ^ 63) (from_le_bytes b))

-- The `match` on the native type.
unfoldable pub slot_literal : Floats → IntField → List ℕ → Str
unfolding slot_float
slot_literal fl f bytes =
    let t = f.native_type in
    if t == type_string
    then in_quotes (trim_end bytes)
    else if t == type_zstring
    then in_quotes (trim_end (from_utf8_lossy (before_nul bytes)))
    else if t == type_int || t == type_autoinc
    then show_int (le_int bytes)
    else if t == type_float
    then slot_float fl f bytes
    else if t == type_money
    then fl.fixed_f64 4 (fl.from_units (le_i64 bytes))
    else if t == type_logical
    then (if get_or bytes 0 0 == 0 then codes "0" else codes "1")
    else if t == type_date
    then or_default f (unpack_date bytes)
    else if t == type_time
    then time_or_midnight (try_le_array 4 bytes)
    else if t == type_decimal
    then slot_decimal bytes (try_le_array 8 bytes)
    else if all_zero bytes
    then quoted_default f
    else in_quotes (trim_end bytes)

unfoldable pub unpack_literals : Floats → List IntField → List ℕ → List (Str × Str)
unfolding slot_literal field_slice
unpack_literals fl fields rec =
    map (λ (f : IntField). (f.name, slot_literal fl f (field_slice rec f.offset f.length))) fields

abbrev equals_literal : Str × Str → Str
equals_literal c = codes "[" ++ replace_char 93 (codes "]]") c.0 ++ codes "] = " ++ c.1

unfoldable pub build_where_clause : List (Str × Str) → Str
build_where_clause [] = codes "1=1"
build_where_clause (c ∷ cs) = join (codes " AND ") (map equals_literal (c ∷ cs))
