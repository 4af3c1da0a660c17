-- ===== src/Tests/Schemas.antt =====
-- Literals of records, and the keys of small .B files.
use wx_btrieve_sql_driver.Base.{
  List, [], codes, false, from_utf8_lossy, length, refl, replicate, some, trim_end, true, ℕ, ◌++◌,
  ◌∷◌, ◌≡◌,
}
use wx_btrieve_sql_driver.Floats.{zero_floats}
use wx_btrieve_sql_driver.Importer.Codec.{literal_of, lstring_bytes}
use wx_btrieve_sql_driver.Importer.Codec.Driver.{slot_literal-literal_of}
use wx_btrieve_sql_driver.Importer.Codec.Literals.{as_type, literal_of-read_literal, read_literal}
use wx_btrieve_sql_driver.Importer.Schema.{BtrieveSchema, BtrieveSeg, fixed}
use wx_btrieve_sql_driver.Importer.Schema.Fields.{schema_to_int}
use wx_btrieve_sql_driver.Importer.Schema.Fields.Loops.{Zipped, with_segments}
use wx_btrieve_sql_driver.Importer.Schema.Fields.Matches.{Describes, schema_to_int-Describes}
use wx_btrieve_sql_driver.Importer.Schema.Fields.Sorted.{Ascending}
use wx_btrieve_sql_driver.Record.Literals.{slot_literal}
use wx_btrieve_sql_driver.Record.Slices.{type_lstring, type_string, type_zstring, type_zstring_12}
use wx_btrieve_sql_driver.Record.Unpack.{before_nul}
use wx_btrieve_sql_driver.Tests.Fixtures.{note_field}

-- `O'M `
abbrev quoted_bytes : List ℕ
quoted_bytes = 79 ∷ 39 ∷ 77 ∷ 32 ∷ []

read_literal_example :
    (read_literal
        (literal_of zero_floats (as_type type_string note_field) quoted_bytes ++ codes ", 1")
      ≡ some (trim_end quoted_bytes, codes ", 1"))
    × (read_literal
          (literal_of zero_floats (as_type type_lstring note_field) quoted_bytes ++ codes ", 1")
        ≡ some (trim_end (from_utf8_lossy (lstring_bytes quoted_bytes)), codes ", 1"))
    × (read_literal
          (literal_of zero_floats (as_type type_zstring note_field) quoted_bytes ++ codes ", 1")
        ≡ some (trim_end (from_utf8_lossy (before_nul quoted_bytes)), codes ", 1"))
    × (read_literal
          (literal_of zero_floats (as_type type_zstring_12 note_field) quoted_bytes ++ codes ", 1")
        ≡ some (trim_end (from_utf8_lossy (before_nul quoted_bytes)), codes ", 1"))
read_literal_example =
    literal_of-read_literal zero_floats note_field quoted_bytes (codes ", 1") refl

abbrev decimal_bytes : List ℕ
decimal_bytes = 44 ∷ 1 ∷ replicate 6 0

driver_example :
    slot_literal zero_floats note_field quoted_bytes
    ≡ literal_of zero_floats note_field quoted_bytes
driver_example = slot_literal-literal_of zero_floats note_field quoted_bytes refl refl refl

-- A descriptor that the next one continues, and the next one.
abbrev two_descriptors : List ℕ
two_descriptors = replicate 8 0 ++ 16 ∷ replicate 51 0

abbrev segment_at : ℕ → BtrieveSeg
segment_at off = record {
  offset = off;
  length = 2;
  data_type = 0;
  attributes = 16;
  null_value = 0;
  descending = true;
  allows_dups = false;
}

-- Two keys that share a segment, and a key without one.
abbrev two_keys : BtrieveSchema
two_keys = record {
  is_v6 = true;
  record_length = 8;
  physical_rec_length = 10;
  page_size = 512;
  page_count = 2;
  record_count = 0;
  file_flags = 0;
  record_kind = fixed;
  keys =
      record { number = 0; segments = segment_at 4 ∷ segment_at 2 ∷ [] }
      ∷ record { number = 1; segments = [] }
      ∷ record { number = 2; segments = segment_at 4 ∷ segment_at 0 ∷ [] }
      ∷ [];
}

schema_to_int_example :
    let int = schema_to_int two_keys (codes "T") (codes "T.B") in
    Ascending int.fields × Zipped (Describes int.fields) (with_segments two_keys.keys) int.indexes
schema_to_int_example = schema_to_int-Describes two_keys (codes "T") (codes "T.B")
