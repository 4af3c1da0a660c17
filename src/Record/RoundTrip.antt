-- ===== src/Record/RoundTrip.antt =====
-- record.rs: `unpack_row_typed` of what `pack_row` wrote.
use mathlib.Core.Path.{subst}
use wx_btrieve_sql_driver.Base.{
  All, Fits, IsAscii, List, Str, [], ap, arith, as_bytes_ascii, from_utf8_lossy,
  from_utf8_lossy_ascii, get_elem?, inl, inr, length, length-replicate, min, negsuc, parse_i64, pos,
  refl, replicate, some, suc, take, take_all, trim, unwrap_or, zero, zip, ℕ, ℤ, ◌++◌, ◌-◌, ◌<◌, ◌^◌,
  ◌∙◌, ◌∷◌, ◌≡◌, ◌≤◌, ◌⊎◌,
}
use wx_btrieve_sql_driver.Floats.{Floats}
use wx_btrieve_sql_driver.Record.Layout.{AllApart, IsInside}
use wx_btrieve_sql_driver.Record.Pack.{
  pack_i64, pack_integer, pack_row, pack_slot, pack_string, pack_zstring,
}
use wx_btrieve_sql_driver.Record.Packed.{Holds, pack_row-Holds}
use wx_btrieve_sql_driver.Record.Slices.{
  field_slice, le_int, type_autoinc, type_int, type_string, type_zstring,
}
use wx_btrieve_sql_driver.Record.Unpack.{before_nul, unpack_slot}
use wx_btrieve_sql_driver.Schema.{IntField}
use wx_btrieve_sql_driver.Sql.KeyWhere.{plain}
use wx_btrieve_sql_driver.SqlParam.{SqlValue, i64, text}

int_2 : (v : ℤ) → Fits (2 ^ 15) v → le_int (pack_i64 v (0 ∷ 0 ∷ [])) ≡ v
unfolding le_int pack_i64
int_2 (pos n) h = ground arith
int_2 (negsuc n) h = ground arith

int_4 : (v : ℤ) → Fits (2 ^ 31) v → le_int (pack_i64 v (replicate 4 0)) ≡ v
unfolding le_int pack_i64
int_4 (pos n) h = ground arith
int_4 (negsuc n) h = ground arith

int_8 : (v : ℤ) → Fits (2 ^ 63) v → le_int (pack_i64 v (replicate 8 0)) ≡ v
unfolding le_int pack_i64
int_8 (pos n) h = ground arith
int_8 (negsuc n) h = ground arith

-- A character of a C string that is one byte.
abbrev pub IsPlain : ℕ → Type 0
IsPlain c = (0 < c) × (c < 0x80)

Plain-Ascii : (s : Str) → All IsPlain s → All IsAscii s
Plain-Ascii [] h = tt
Plain-Ascii (c ∷ cs) h = (h.0.1, Plain-Ascii cs h.1)

before_nul-append : (s rest : Str) → All IsPlain s → before_nul (s ++ 0 ∷ rest) ≡ s
before_nul-append [] rest h = refl
before_nul-append (c ∷ cs) rest h =
    let p : 0 < c = h.0.0 in ground (arith, before_nul-append cs rest h.1)

pack_zstring_plain :
    (val : Str) (len : ℕ)
    → All IsPlain val
    → length val < len
    → pack_zstring val (replicate len 0) ≡ val ++ 0 ∷ replicate (len - length val - 1) 0
unfolding pack_zstring
pack_zstring_plain val len h small =
    let e = length-replicate {A = ℕ} len 0 in
    let n = min (length val) (len - 1) in
    let k : n ≡ length val = omega arith in
    ap
      (λ bytes.
        let m = min (length bytes) (length {A = ℕ} (replicate len 0) - 1) in
        take m bytes ++ 0 ∷ replicate (length {A = ℕ} (replicate len 0) - m - 1) 0)
      (as_bytes_ascii val (Plain-Ascii val h))
    ∙ ap (λ l. let m = min (length val) (l - 1) in take m val ++ 0 ∷ replicate (l - m - 1) 0) e
    ∙ ap (λ m. take m val ++ 0 ∷ replicate (len - m - 1) 0) k
    ∙ ap (λ t. t ++ 0 ∷ replicate (len - length val - 1) 0)
        (take_all (length val) val (omega arith))

zstring_lem :
    (val : Str) (len : ℕ)
    → All IsPlain val
    → length val < len
    → from_utf8_lossy (before_nul (pack_zstring val (replicate len 0))) ≡ val
zstring_lem val len h small =
    ap (λ t. from_utf8_lossy (before_nul t)) (pack_zstring_plain val len h small)
    ∙ ap from_utf8_lossy (before_nul-append val _ h)
    ∙ from_utf8_lossy_ascii val (Plain-Ascii val h)

string_lem :
    (val : Str) (len : ℕ)
    → All IsAscii val
    → length val ≤ len
    → pack_string val (replicate len 0) ≡ val ++ replicate (len - length val) 0x20
unfolding pack_string
string_lem val len h small =
    ap
      (λ bytes.
        let m = min (length bytes) (length {A = ℕ} (replicate len 0)) in
        take m bytes ++ replicate (length {A = ℕ} (replicate len 0) - m) 0x20)
      (as_bytes_ascii val h)
    ∙ ap (λ l. let m = min (length val) l in take m val ++ replicate (l - m) 0x20)
        (length-replicate {A = ℕ} len 0)
    ∙ ap (λ m. take m val ++ replicate (len - m) 0x20) (omega arith)
    ∙ ap (λ t. t ++ replicate (len - length val) 0x20) (take_all (length val) val (omega arith))

-- The widths and ranges of the integers that a field can hold signed.
abbrev pub FitsIn : ℕ → ℤ → Type 0
FitsIn len v =
    ((len ≡ 2) × Fits (2 ^ 15) v) ⊎ ((len ≡ 4) × Fits (2 ^ 31) v) ⊎ ((len ≡ 8) × Fits (2 ^ 63) v)

integer_lem : (len : ℕ) (v : ℤ) → FitsIn len v → le_int (pack_i64 v (replicate len 0)) ≡ v
integer_lem len v (inl h) = ap (λ k. le_int (pack_i64 v (replicate k 0))) h.0 ∙ int_2 v h.1
integer_lem len v (inr (inl h)) = ap (λ k. le_int (pack_i64 v (replicate k 0))) h.0 ∙ int_4 v h.1
integer_lem len v (inr (inr h)) = ap (λ k. le_int (pack_i64 v (replicate k 0))) h.0 ∙ int_8 v h.1

All-get_elem? :
    {A : Type 0} (P : A → Type 0) (xs : List A) (i : ℕ) (x : A)
    → All P xs
    → get_elem? xs i ≡ some x
    → P x
All-get_elem? P [] i x h e = absurd (cc)
All-get_elem? P (y ∷ ys) zero x h e = subst P (ground (arith, e)) h.0
All-get_elem? P (y ∷ ys) (suc i) x h e = All-get_elem? P ys i x h.1 e

abbrev pub IsInteger : IntField → Type 0
IsInteger f = (f.native_type ≡ type_int) ⊎ (f.native_type ≡ type_autoinc)

module _ (fl : Floats) (f : IntField) (val : Str) (slot : List ℕ) where
  int_slot :
      IsInteger f
      → (pack_slot fl f.native_type val slot ≡ pack_integer val slot)
        × ((bytes : List ℕ) → unpack_slot fl f bytes ≡ i64 (le_int bytes))
  unfolding unpack_slot pack_slot
  int_slot (inl e) = (ground arith, λ bytes. ground arith)
  int_slot (inr e) = (ground arith, λ bytes. ground arith)

  zstring_slot :
      f.native_type ≡ type_zstring
      → (pack_slot fl f.native_type val slot ≡ pack_zstring val slot)
        × ((bytes : List ℕ) → unpack_slot fl f bytes ≡ text (from_utf8_lossy (before_nul bytes)))
  unfolding unpack_slot pack_slot
  zstring_slot e = (ground arith, λ bytes. ground arith)

  string_slot :
      f.native_type ≡ type_string
      → (pack_slot fl f.native_type val slot ≡ pack_string val slot)
        × ((bytes : List ℕ) → unpack_slot fl f bytes ≡ text bytes)
  unfolding unpack_slot pack_slot
  string_slot e = (ground arith, λ bytes. ground arith)

-- Fields that `pack_row` keeps apart, with `rec` the packed record.
module _ (fl : Floats) (fields : List IntField) (columns : List Str) (n : ℕ) (small : n < 2 ^ 32)
    (inside : All (IsInside n) fields) (apart : AllApart fields) (i : ℕ) (f : IntField) (val : Str)
    (at : get_elem? (zip fields columns) i ≡ some (f, val)) where
  abbrev read_back : SqlValue
  read_back = unpack_slot fl f (field_slice (pack_row fl fields columns n) f.offset f.length)

  read_lem : read_back ≡ unpack_slot fl f (pack_slot fl f.native_type val (replicate f.length 0))
  read_lem = ap (unpack_slot fl f) (
      All-get_elem? (Holds fl (pack_row fl fields columns n)) (zip fields columns) i (f, val)
        (pack_row-Holds fl fields columns n small inside apart) at)

  -- In a record laid out without overlaps, an INT or AUTOINC field of 2, 4 or 8 bytes whose column
  -- is the decimal text of an integer that the width holds signed is read back as that integer.
  pub unpack_slot-pack_row_int :
      (v : ℤ) → IsInteger f → parse_i64 (trim val) ≡ some v → FitsIn f.length v → read_back ≡ i64 v
  unfolding pack_integer
  unpack_slot-pack_row_int v kind parsed fits =
      let slot = int_slot fl f val (replicate f.length 0) kind in
      read_lem
      ∙ slot.1 _
      ∙ ap (λ b. i64 (le_int b)) slot.0
      ∙ ap (λ o. i64 (le_int (pack_i64 (unwrap_or o (pos 0)) (replicate f.length 0)))) parsed
      ∙ ap i64 (integer_lem f.length v fits)

  -- In a record laid out without overlaps, a ZSTRING field is read back as its column when that is
  -- ASCII without NUL and leaves a byte for the terminator.
  pub unpack_slot-pack_row_zstring :
      f.native_type ≡ type_zstring → All IsPlain val → length val < f.length → read_back ≡ text val
  unpack_slot-pack_row_zstring kind plain short =
      let slot = zstring_slot fl f val (replicate f.length 0) kind in
      read_lem
      ∙ slot.1 _
      ∙ ap (λ b. text (from_utf8_lossy (before_nul b))) slot.0
      ∙ ap text (zstring_lem val f.length plain short)

  -- In a record laid out without overlaps, a STRING field is read back as its ASCII column of at
  -- most the field's width, padded by spaces to that width.
  pub unpack_slot-pack_row_string :
      f.native_type ≡ type_string
      → All IsAscii val
      → length val ≤ f.length
      → read_back ≡ text (val ++ replicate (f.length - length val) 0x20)
  unpack_slot-pack_row_string kind ascii short =
      let slot = string_slot fl f val (replicate f.length 0) kind in
      read_lem ∙ slot.1 _ ∙ ap text slot.0 ∙ ap text (string_lem val f.length ascii short)
