-- ===== src/Tests/Imports.antt =====
-- Small .B files.
use wx_btrieve_sql_driver.Base.{
  All, List, [], ap, arith, inl, length, refl, replicate, slice, some, ℕ, ◌++◌, ◌∷◌, ◌≡◌,
}
use wx_btrieve_sql_driver.Importer.BFile.{
  BtrieveFile, FileHeader, collect, header_of, is_data_page, new_v6, open_file, read_slot, records,
}
use wx_btrieve_sql_driver.Importer.BFile.Begin.{SlotsFit}
use wx_btrieve_sql_driver.Importer.BFile.Lengths.{live_records-Sized}
use wx_btrieve_sql_driver.Importer.BFile.Limit.{limited}
use wx_btrieve_sql_driver.Importer.BFile.Whole.{collect-live_records, live_records}
use wx_btrieve_sql_driver.Importer.Schema.Parse.{parse_schema, unrecognised, version_word}
use wx_btrieve_sql_driver.Importer.Versions.{open_file-parse_schema}

abbrev small_header : FileHeader
small_header = record {
  version = 6;
  page_size = 16;
  logical_rec_len = 2;
  physical_rec_len = 4;
  key_count = 0;
  record_count = 0;
  page_count = 2;
}

-- An index page, and a data page with a live, a deleted and a cut off slot.
abbrev small_file : BtrieveFile
small_file = record {
  header = small_header;
  bytes =
      replicate 16 0 ++ (0 ∷ 0 ∷ 0 ∷ 0 ∷ 0 ∷ 128 ∷ 1 ∷ 0 ∷ 65 ∷ 66 ∷ 0 ∷ 0 ∷ 67 ∷ 68 ∷ 0 ∷ 0 ∷ []);
}

small_file_records : live_records small_file ≡ (65 ∷ 66 ∷ []) ∷ []
unfolding records new_v6 is_data_page read_slot
small_file_records = refl

collect_example :
    (collect 2 small_file (records small_file) ≡ some (limited 0 0 (live_records small_file)))
    × SlotsFit small_file (records small_file).slots_pp
collect_example = collect-live_records small_file 2 (omega (arith, ap length small_file_records))

-- A file of one page of 512 bytes: version 4 of the old format, 2 bytes a record.
abbrev old_bytes : List ℕ
old_bytes =
    (0 ∷ 0 ∷ 0 ∷ 0 ∷ 0 ∷ 0 ∷ 4 ∷ 0 ∷ 0 ∷ 2 ∷ 0 ∷ 0 ∷ 0 ∷ 0 ∷ 2 ∷ 0 ∷ 3 ∷ 0 ∷ []) ++ replicate 494 0

abbrev old_file : BtrieveFile
old_file = record {
  header = record {
    version = 5;
    page_size = 512;
    logical_rec_len = 2;
    physical_rec_len = 3;
    key_count = 0;
    record_count = 0;
    page_count = 0;
  };
  bytes = old_bytes;
}

lengths_example : All (λ r. length r ≡ 2) (live_records old_file)
unfolding open_file header_of
lengths_example = live_records-Sized old_bytes old_file refl

old_schema_example :
    parse_schema old_bytes ≡ inl (unrecognised (version_word (slice 0 512 old_bytes)))
unfolding open_file header_of
old_schema_example = open_file-parse_schema old_bytes old_file refl refl
