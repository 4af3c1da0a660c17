-- ===== src/Importer/Sqlsrv/Values.antt =====
-- sqlsrv.rs, `boxed_pg_value_from_literal` and `sqlite_value_from_literal`: a literal made back into
-- a value to bind.
use mathlib.Core.List.{reverse}
use wx_btrieve_sql_driver.Base.{
  Bool, Option, Str, [], and_then, codes, drop_while, if◌then◌else◌, ltb, negsuc, none, parse_i64,
  pos, some, str_eq, trim, unwrap_or, ℕ, ℤ, ◌&&◌, ◌==◌, ◌^◌, ◌||◌, ◌∷◌,
}
use wx_btrieve_sql_driver.Floats.{Floats}
use wx_btrieve_sql_driver.Record.Slices.{
  type_autoinc, type_autoincrement, type_date, type_decimal, type_float, type_int, type_logical,
  type_time,
}
use wx_btrieve_sql_driver.Schema.{IntField}

-- The values that are bound: NULL, integers of 64 and of 16 bits, floats by their bits, and texts.
pub data Value : Type 0 where
  null : Value
  integer : ℤ → Value
  small : ℤ → Value
  real : ℕ → Value
  text : Str → Value

abbrev in_i16 : ℤ → Option ℤ
in_i16 (pos n) = if ltb n (2 ^ 15) then some (pos n) else none
in_i16 (negsuc n) = if ltb n (2 ^ 15) then some (negsuc n) else none

-- `parse::<i16>`
abbrev pub parse_i16 : Str → Option ℤ
parse_i16 s = and_then (parse_i64 s) in_i16

-- `strip_prefix('\'')`
abbrev pub strip_prefix : Str → Option Str
strip_prefix [] = none
strip_prefix (c ∷ cs) = if c == 39 then some cs else none

abbrev pub cons_char : ℕ → Option Str → Option Str
cons_char c none = none
cons_char c (some s) = some (c ∷ s)

-- `strip_suffix('\'')`
abbrev pub strip_suffix : Str → Option Str
strip_suffix [] = none
strip_suffix (c ∷ []) = if c == 39 then some [] else none
strip_suffix (c ∷ d ∷ cs) = cons_char c (strip_suffix (d ∷ cs))

-- `replace("''", "'")`
abbrev pub undouble : Str → Str
undouble [] = []
undouble (c ∷ []) = c ∷ []
undouble (c ∷ d ∷ cs) =
    let skip = undouble cs in
    let keep_it = undouble (d ∷ cs) in if c == 39 && d == 39 then 39 ∷ skip else c ∷ keep_it

abbrev pub or_whole : Str → Option Str → Str
or_whole lit none = lit
or_whole lit (some s) = undouble s

-- The text between the quotes of a literal, or the whole of it.
unfoldable pub unquoted : Str → Str
unquoted lit = or_whole lit (and_then (strip_prefix (trim lit)) strip_suffix)

abbrev quotes_off_end : Str → Str
quotes_off_end s = reverse (drop_while (λ c. c == 39) (reverse s))

-- `trim_start_matches('\'')` and `trim_end_matches('\'')`
unfoldable pub bare : Str → Str
bare lit = quotes_off_end (drop_while (λ c. c == 39) (trim lit))

abbrev pub or_zero : Option ℤ → ℤ
or_zero o = unwrap_or o (pos 0)

abbrev pub is_int_type : ℕ → Bool
is_int_type t = t == type_int || t == type_decimal || t == type_autoinc || t == type_autoincrement

unfoldable pub boxed_pg_value_from_literal : Floats → Str → IntField → Value
boxed_pg_value_from_literal fl lit f =
    if str_eq lit (codes "NULL")
    then null
    else if is_int_type f.native_type
    then integer (or_zero (parse_i64 (trim lit)))
    else if f.native_type == type_float
    then real (unwrap_or (fl.parse_f64 (trim lit)) 0)
    else if f.native_type == type_logical
    then small (or_zero (parse_i16 (trim lit)))
    else if f.native_type == type_date || f.native_type == type_time
    then text (bare lit)
    else text (unquoted lit)

unfoldable pub sqlite_value_from_literal : Floats → Str → IntField → Value
sqlite_value_from_literal fl lit f =
    if str_eq lit (codes "NULL")
    then null
    else if is_int_type f.native_type
    then integer (or_zero (parse_i64 (trim lit)))
    else if f.native_type == type_float
    then real (unwrap_or (fl.parse_f64 (trim lit)) 0)
    else if f.native_type == type_logical
    then integer (or_zero (parse_i64 (trim lit)))
    else text (unquoted lit)
