-- ===== src/Record/Slices.antt =====
-- record.rs: the native type codes, `field_slice` and the little-endian readers. `usize` is that
-- of the 32-bit DLL.
use wx_btrieve_sql_driver.Base.{
  List, Option, [], from_le_bytes, get_or, if◌then◌else◌, length, ltb, min, none, pos, replicate,
  signed, slice, some, take, ℕ, ℤ, ◌++◌, ◌+◌, ◌-◌, ◌==◌, ◌^◌,
}

abbrev pub type_string : ℕ
type_string = 0

abbrev pub type_int : ℕ
type_int = 1

abbrev pub type_float : ℕ
type_float = 2

abbrev pub type_date : ℕ
type_date = 3

abbrev pub type_time : ℕ
type_time = 4

abbrev pub type_decimal : ℕ
type_decimal = 5

abbrev pub type_money : ℕ
type_money = 6

abbrev pub type_logical : ℕ
type_logical = 7

abbrev pub type_lstring : ℕ
type_lstring = 10

abbrev pub type_zstring : ℕ
type_zstring = 11

abbrev pub type_zstring_12 : ℕ
type_zstring_12 = 12

abbrev pub type_autoinc : ℕ
type_autoinc = 14

abbrev pub type_autoincrement : ℕ
type_autoincrement = 15

-- `usize::checked_add`
abbrev pub checked_add : ℕ → ℕ → Option ℕ
checked_add a b = if ltb (a + b) (2 ^ 32) then some (a + b) else none

-- `usize::saturating_add`
abbrev pub saturating_add : ℕ → ℕ → ℕ
saturating_add a b = min (a + b) (2 ^ 32 - 1)

unfoldable pub field_slice : List ℕ → ℕ → ℕ → List ℕ
field_slice rec offset len = elim (checked_add offset len) [
  | none ↦ []
  | some end ↦ if ltb (length rec) end then [] else slice offset len rec
]

unfoldable pub try_le_array : ℕ → List ℕ → Option (List ℕ)
try_le_array n bytes = if ltb (length bytes) n then none else some (take n bytes)

-- The integer at the head of a slice: of 1 byte unsigned, of 2, 4 or 8 signed, otherwise 0.
unfoldable pub le_int : List ℕ → ℤ
le_int bytes =
    let n = min (length bytes) 8 in
    if n == 1
    then pos (get_or bytes 0 0)
    else if n == 2
    then signed (2 ^ 15) (from_le_bytes (take 2 bytes))
    else if n == 4
    then signed (2 ^ 31) (from_le_bytes (take 4 bytes))
    else if n == 8
    then signed (2 ^ 63) (from_le_bytes (take 8 bytes))
    else pos 0

-- `i64::from_le_bytes` of the slice, padded by zeros or cut to 8 bytes.
unfoldable pub le_i64 : List ℕ → ℤ
le_i64 bytes =
    signed (2 ^ 63) (from_le_bytes (take 8 bytes ++ replicate (8 - min (length bytes) 8) 0))
