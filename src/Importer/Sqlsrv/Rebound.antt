-- ===== src/Importer/Sqlsrv/Rebound.antt =====
-- codec.rs and sqlsrv.rs: the values that Postgres and SQLite get from a record's literals.
use wx_btrieve_sql_driver.Base.{
  List, Str, codes, from_le_bytes, if◌then◌else◌, signed, str_eq, ℕ, ℤ, ◌*◌, ◌-◌, ◌^◌, ◌≡◌, ◌⊎◌,
}
use wx_btrieve_sql_driver.Floats.{Floats}
use wx_btrieve_sql_driver.Importer.Codec.{literal_of}
use wx_btrieve_sql_driver.Importer.Sqlsrv.Values.{
  Value, boxed_pg_value_from_literal, null, sqlite_value_from_literal,
}
use wx_btrieve_sql_driver.Schema.{IntField}

-- Both backends bind this value for a field of this type with these bytes.
abbrev pub Binds : Floats → IntField → List ℕ → Value → Type 0
Binds fl f b v =
    (boxed_pg_value_from_literal fl (literal_of fl f b) f ≡ v)
    × (sqlite_value_from_literal fl (literal_of fl f b) f ≡ v)

abbrev unless_null : Str → Value → Value
unless_null lit v = if str_eq lit (codes "NULL") then null else v

-- An integer of a width that the codec reads as signed: 2, 4 or 8 bytes.
abbrev pub IsWidth : ℕ → Type 0
IsWidth n = (n ≡ 2) ⊎ (n ≡ 4) ⊎ (n ≡ 8)

-- The integer of `n` bytes, the lowest first, in two's complement.
abbrev pub held : ℕ → List ℕ → ℤ
held n b = signed (2 ^ (8 * n - 1)) (from_le_bytes b)
