-- ===== src/Tests/Records.antt =====
-- Concrete runs of the record codec.
use wx_btrieve_sql_driver.Base.{
  All, arith, codes, inl, inr, negsuc, parse_i64, refl, trim, zip, ◌<◌, ◌^◌, ◌≡◌,
}
use wx_btrieve_sql_driver.Floats.{zero_floats}
use wx_btrieve_sql_driver.SqlParam.{text}
use wx_btrieve_sql_driver.Record.Layout.{AllApart, IsInside}
use wx_btrieve_sql_driver.Record.Pack.{pack_row}
use wx_btrieve_sql_driver.Record.Packed.{Holds, pack_row-Holds}
use wx_btrieve_sql_driver.Record.RoundTrip.{unpack_slot-pack_row_int, unpack_slot-pack_row_zstring}
use wx_btrieve_sql_driver.Record.Slices.{field_slice}
use wx_btrieve_sql_driver.Record.Unpack.{unpack_slot}
use wx_btrieve_sql_driver.SqlParam.{i64}
use wx_btrieve_sql_driver.Tests.Fixtures.{id_field, name_field, sample_columns, sample_fields}

abbrev sample_inside : All (IsInside 16) sample_fields
sample_inside =
    ((omega arith, omega arith), ((omega arith, omega arith), ((omega arith, omega arith), tt)))

abbrev sample_apart : AllApart sample_fields
sample_apart = ((inl (omega arith), (inl (omega arith), tt)), ((inl (omega arith), tt), (tt, tt)))

abbrev small_record : 16 < 2 ^ 32
small_record = omega arith

pack_row_example :
    All
      (Holds zero_floats (pack_row zero_floats sample_fields sample_columns 16))
      (zip sample_fields sample_columns)
pack_row_example =
    pack_row-Holds zero_floats sample_fields sample_columns 16 small_record sample_inside
      sample_apart

int_example :
    unpack_slot zero_floats id_field
      (field_slice (pack_row zero_floats sample_fields sample_columns 16) 0 4)
    ≡ i64 (negsuc 41)
unfolding parse_i64 trim
int_example =
    unpack_slot-pack_row_int zero_floats sample_fields sample_columns 16 small_record sample_inside
      sample_apart 0 id_field (codes " -42 ") refl (negsuc 41) (inl refl) refl
      (inr (inl (refl, omega arith)))

zstring_example :
    unpack_slot zero_floats name_field
      (field_slice (pack_row zero_floats sample_fields sample_columns 16) 4 8)
    ≡ text (codes "BOB")
zstring_example =
    unpack_slot-pack_row_zstring zero_floats sample_fields sample_columns 16 small_record
      sample_inside sample_apart 1 name_field (codes "BOB") refl refl
      ((omega arith, omega arith), ((omega arith, omega arith), ((omega arith, omega arith), tt)))
      (omega arith)
