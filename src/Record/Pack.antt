-- ===== src/Record/Pack.antt =====
-- record.rs `pack_row`: SQL column texts into a record of `record_length` bytes. Each kind of
-- field has a function from the text and the slot's old bytes to its new bytes.
use wx_btrieve_sql_driver.Base.{
  List, Str, [], as_bytes, codes, eq_ignore_ascii_case, if◌then◌else◌, is_digit, keep, leb, length,
  ltb, min, none, parse_i64, parse_unsigned, pos, replicate, slice, some, splice, str_eq, take,
  to_le_bytes, to_word, trim, unwrap_or, zip, ℕ, ℤ, ◌%◌, ◌&&◌, ◌*◌, ◌++◌, ◌+◌, ◌-◌, ◌/◌, ◌==◌, ◌^◌,
  ◌||◌, ◌∷◌,
}
use wx_btrieve_sql_driver.Floats.{Floats}
use wx_btrieve_sql_driver.Record.Slices.{
  checked_add, type_autoinc, type_autoincrement, type_date, type_decimal, type_float, type_int,
  type_logical, type_lstring, type_money, type_string, type_time, type_zstring, type_zstring_12,
}
use wx_btrieve_sql_driver.Schema.{IntField}

unfoldable pub pack_string : Str → List ℕ → List ℕ
pack_string val slot =
    let bytes = as_bytes val in
    let n = min (length bytes) (length slot) in take n bytes ++ replicate (length slot - n) 0x20

unfoldable pub pack_lstring : Str → List ℕ → List ℕ
pack_lstring val slot =
    let bytes = as_bytes val in
    let n = min (length bytes) (length slot - 1) in
    if leb 2 (length slot)
    then (n % 256) ∷ (take n bytes ++ replicate (length slot - 1 - n) 0x20)
    else slot

unfoldable pub pack_zstring : Str → List ℕ → List ℕ
pack_zstring val slot =
    let bytes = as_bytes val in
    let n = min (length bytes) (length slot - 1) in
    take n bytes ++ 0 ∷ replicate (length slot - n - 1) 0

-- The first `min(slot.len(), 8)` little-endian bytes of an `i64`.
unfoldable pub pack_i64 : ℤ → List ℕ → List ℕ
pack_i64 v slot = splice 0 (take (min (length slot) 8) (to_le_bytes 8 (to_word (2 ^ 64) v))) slot

unfoldable pub pack_integer : Str → List ℕ → List ℕ
unfolding pack_i64
pack_integer val slot = pack_i64 (unwrap_or (parse_i64 (trim val)) (pos 0)) slot

unfoldable pub pack_float : Floats → Str → List ℕ → List ℕ
pack_float fl val slot =
    let v = unwrap_or (fl.parse_f64 (trim val)) 0 in
    if length slot == 4
    then to_le_bytes 4 (fl.f64_to_f32 v)
    else if length slot == 8
    then to_le_bytes 8 v
    else slot

unfoldable pub pack_money : Floats → Str → List ℕ → List ℕ
unfolding pack_i64
pack_money fl val slot = pack_i64 (fl.to_units (unwrap_or (fl.parse_f64 (trim val)) 0)) slot

unfoldable pub pack_logical : Str → List ℕ → List ℕ
pack_logical val slot =
    let v = trim val in
    let truth =
      str_eq v (codes "1")
      || eq_ignore_ascii_case v (codes "true")
      || eq_ignore_ascii_case v (codes "yes") in
    splice 0 ((if truth then 0xff else 0) ∷ []) slot

abbrev pub ascii_digits : Str → Str
ascii_digits s = keep is_digit (trim s)

unfoldable pub pack_date : Str → List ℕ → List ℕ
pack_date val slot =
    let digits = ascii_digits val in
    let year = unwrap_or (parse_unsigned 65535 (slice 0 4 digits)) 0 in
    let month = unwrap_or (parse_unsigned 255 (slice 4 2 digits)) 0 in
    let day = unwrap_or (parse_unsigned 255 (slice 6 2 digits)) 0 in
    if eq_ignore_ascii_case (trim val) (codes "NULL")
    then slot
    else if leb 4 (length slot) && leb 8 (length digits)
    then splice 0 (day ∷ month ∷ (year % 256) ∷ (year / 256) ∷ []) slot
    else slot

unfoldable pub pack_time : Str → List ℕ → List ℕ
pack_time val slot =
    let digits = ascii_digits val in
    let u32_max = 2 ^ 32 - 1 in
    let hh = unwrap_or (parse_unsigned u32_max (slice 0 2 digits)) 0 in
    let mm = unwrap_or (parse_unsigned u32_max (slice 2 2 digits)) 0 in
    let ss = unwrap_or (parse_unsigned u32_max (slice 4 2 digits)) 0 in
    if eq_ignore_ascii_case (trim val) (codes "NULL")
    then slot
    else if leb 4 (length slot) && leb 6 (length digits)
    then splice 0 (to_le_bytes 4 (hh * 1_000_000 + mm * 10_000 + ss * 100)) slot
    else slot

-- The `match` on the native type.
unfoldable pub pack_slot : Floats → ℕ → Str → List ℕ → List ℕ
pack_slot fl t val slot =
    if t == type_string
    then pack_string val slot
    else if t == type_lstring
    then pack_lstring val slot
    else if t == type_zstring || t == type_zstring_12
    then pack_zstring val slot
    else if t == type_int || t == type_autoinc || t == type_autoincrement
    then pack_integer val slot
    else if t == type_float
    then pack_float fl val slot
    else if t == type_money
    then pack_money fl val slot
    else if t == type_decimal
    then pack_integer val slot
    else if t == type_logical
    then pack_logical val slot
    else if t == type_date
    then pack_date val slot
    else if t == type_time
    then pack_time val slot
    else pack_string val slot

-- One round of the loop: a field that does not fit, or is empty, is skipped.
unfoldable pub pack_field : Floats → IntField → Str → List ℕ → List ℕ
pack_field fl f val buf = elim (checked_add f.offset f.length) [
  | none ↦ buf
  | some end ↦
      if ltb (length buf) end
      then buf
      else if f.length == 0
      then buf
      else splice f.offset (pack_slot fl f.native_type val (slice f.offset f.length buf)) buf
]

unfoldable pub pack_fields : Floats → List (IntField × Str) → List ℕ → List ℕ
pack_fields fl [] buf = buf
pack_fields fl ((f, val) ∷ rest) buf = pack_fields fl rest (pack_field fl f val buf)

unfoldable pub pack_row : Floats → List IntField → List Str → ℕ → List ℕ
unfolding pack_fields
pack_row fl fields columns record_length =
    pack_fields fl (zip fields columns) (replicate record_length 0)
