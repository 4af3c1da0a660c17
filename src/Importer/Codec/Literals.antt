-- ===== src/Importer/Codec/Literals.antt =====
-- codec.rs: what an SQL reader makes of the literals, and the same fields in the driver.
use mathlib.Core.List.{append_assoc}
use wx_btrieve_sql_driver.Base.{
  Bool-cases, List, Option, Option-cases, Str, [], ap, arith, codes, false, from_utf8_lossy, get_or,
  if◌then◌else◌, inl, inr, leb, length, ltb, none, not, refl, replace_char, show_int, show_padded,
  some, trim_end, true, ℕ, ◌++◌, ◌==◌, ◌∙◌, ◌∷◌, ◌≡◌,
}
use wx_btrieve_sql_driver.Dialect.Quoting.{NotAtHead, read_quoted, read_replaced}
use wx_btrieve_sql_driver.Floats.{Floats}
use wx_btrieve_sql_driver.Importer.Codec.{
  date_literal, default_literal, literal_of, lstring_bytes, quoted_text, time_literal,
}
use wx_btrieve_sql_driver.Record.Slices.{
  try_le_array, type_autoinc, type_date, type_decimal, type_int, type_logical, type_lstring,
  type_string, type_time, type_zstring, type_zstring_12,
}
use wx_btrieve_sql_driver.Record.Unpack.{
  before_nul, default_text, unpack_date, unpack_slot, unpack_time,
}
use wx_btrieve_sql_driver.Schema.{IntField}
use wx_btrieve_sql_driver.SqlParam.{SqlValue, bool, f64, i32, i64, null, text}

-- A reader of string literals: the text, and what follows the literal.
abbrev pub read_literal : Str → Option (Str × Str)
read_literal [] = none
read_literal (c ∷ cs) = if c == 39 then read_quoted 39 cs else none

quoted_text-read :
    (s rest : Str) → NotAtHead 39 rest → read_literal (quoted_text s ++ rest) ≡ some (s, rest)
unfolding quoted_text
quoted_text-read s rest h =
    ap (read_quoted 39) (append_assoc (replace_char 39 (39 ∷ 39 ∷ []) s) (39 ∷ []) rest)
    ∙ read_replaced 39 s rest h

abbrev pub as_type : ℕ → IntField → IntField
as_type t f = record f { native_type = t }

-- The literal of a text field of any of the four types is one string literal, whatever the record's
-- bytes are: an SQL reader finds in it the field's text without trailing spaces, and behind it what
-- followed, as long as that does not begin by a quote.
pub literal_of-read_literal :
    (fl : Floats) (f : IntField) (b : List ℕ) (rest : Str)
    → NotAtHead 39 rest
    → (read_literal (literal_of fl (as_type type_string f) b ++ rest) ≡ some (trim_end b, rest))
      × (read_literal (literal_of fl (as_type type_lstring f) b ++ rest)
          ≡ some (trim_end (from_utf8_lossy (lstring_bytes b)), rest))
      × (read_literal (literal_of fl (as_type type_zstring f) b ++ rest)
          ≡ some (trim_end (from_utf8_lossy (before_nul b)), rest))
      × (read_literal (literal_of fl (as_type type_zstring_12 f) b ++ rest)
          ≡ some (trim_end (from_utf8_lossy (before_nul b)), rest))
unfolding literal_of
literal_of-read_literal fl f b rest h = (
  quoted_text-read (trim_end b) rest h,
  quoted_text-read (trim_end (from_utf8_lossy (lstring_bytes b))) rest h,
  quoted_text-read (trim_end (from_utf8_lossy (before_nul b))) rest h,
  quoted_text-read (trim_end (from_utf8_lossy (before_nul b))) rest h,
)

-- The literal of a value that the driver binds: texts between quotes, and a Boolean as a TINYINT.
abbrev pub bound_literal : SqlValue → Str
bound_literal null = codes "NULL"
bound_literal (bool true) = codes "1"
bound_literal (bool false) = codes "0"
bound_literal (i32 v) = show_int v
bound_literal (i64 v) = show_int v
bound_literal (f64 v) = []
bound_literal (text s) = 39 ∷ (s ++ 39 ∷ [])
bound_literal (SqlValue.bytes b) = []

abbrev pub bound : Floats → ℕ → IntField → List ℕ → SqlValue
bound fl t f b = unpack_slot fl (as_type t f) b

default-bound : (f : IntField) → default_literal f ≡ bound_literal (default_text f)
default-bound f = elim (Option-cases f.default_value) [ inl e ↦ rw e refl | inr d ↦ rw d.1 refl ]

logical-bound :
    (c : ℕ) → (if c == 0 then codes "0" else codes "1") ≡ bound_literal (bool (not (c == 0)))
logical-bound c = elim (Bool-cases (c == 0)) [ inl e ↦ rw e refl | inr e ↦ rw e refl ]

date-bound :
    (fl : Floats) (f : IntField) (b : List ℕ)
    → date_literal (as_type type_date f) b ≡ bound_literal (bound fl type_date f b)
unfolding date_literal unpack_slot
date-bound fl f b = elim (Option-cases (unpack_date b)) [
  | inl e ↦ rw e (default-bound f)
  | inr d ↦ rw d.1 refl
]

time-bound :
    (fl : Floats) (f : IntField) (b : List ℕ)
    → time_literal b ≡ bound_literal (bound fl type_time f b)
unfolding unpack_slot unpack_time try_le_array show_padded
time-bound fl f b = elim (Bool-cases (ltb (length b) 4)) [
  | inl e ↦ let short : leb 4 (length b) ≡ false = ground arith in rw (e, short) refl
  | inr e ↦ let long : leb 4 (length b) ≡ true = ground arith in rw (e, long) refl
]

-- The importer writes the fields of these types as the driver binds them: integers, decimals,
-- logicals, dates and times, with the same reading of defaults and of bytes that are no date.
pub literal_of-unpack_slot :
    (fl : Floats) (f : IntField) (b : List ℕ)
    → (literal_of fl (as_type type_int f) b ≡ bound_literal (bound fl type_int f b))
      × (literal_of fl (as_type type_autoinc f) b ≡ bound_literal (bound fl type_autoinc f b))
      × (literal_of fl (as_type type_decimal f) b ≡ bound_literal (bound fl type_decimal f b))
      × (literal_of fl (as_type type_logical f) b ≡ bound_literal (bound fl type_logical f b))
      × (literal_of fl (as_type type_date f) b ≡ bound_literal (bound fl type_date f b))
      × (literal_of fl (as_type type_time f) b ≡ bound_literal (bound fl type_time f b))
unfolding literal_of unpack_slot
literal_of-unpack_slot fl f b =
    (refl, refl, refl, logical-bound (get_or b 0 0), date-bound fl f b, time-bound fl f b)
