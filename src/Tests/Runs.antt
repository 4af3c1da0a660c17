-- ===== src/Tests/Runs.antt =====
-- The import of a small .B file.
use wx_btrieve_sql_driver.Base.{
  List, Str, [], codes, false, inl, length, none, refl, replicate, some, true, ℕ, ◌++◌, ◌∷◌, ◌≡◌,
}
use wx_btrieve_sql_driver.Dialect.{sqlite}
use wx_btrieve_sql_driver.Floats.{zero_floats}
use wx_btrieve_sql_driver.Importer.BFile.{BtrieveFile, records}
use wx_btrieve_sql_driver.Importer.Runner.{Clients, ImportOptions}
use wx_btrieve_sql_driver.Importer.Runner.DryRun.{files_loop-dry_run}
use wx_btrieve_sql_driver.Importer.Runner.Files.{ImportStats, SourceFile, files_loop}
use wx_btrieve_sql_driver.Importer.Schema.{IntFile}
use wx_btrieve_sql_driver.Importer.Sqlsrv.{DecodedRow}
use wx_btrieve_sql_driver.Importer.Sqlsrv.Values.{Value}
use wx_btrieve_sql_driver.Record.Slices.{type_string}
use wx_btrieve_sql_driver.Schema.{IntField}

-- A file of two pages of 512 bytes with records of 2 bytes: `AB` and `C'`.
abbrev two_records : List ℕ
two_records =
    (70 ∷ 67 ∷ replicate 20 0)
    ++ (2 ∷ 0 ∷ 4 ∷ 0 ∷ replicate 486 0)
    ++ (0
        ∷ 0
        ∷ 0
        ∷ 0
        ∷ 0
        ∷ 128
        ∷ 1
        ∷ 0
        ∷ 65
        ∷ 66
        ∷ 0
        ∷ 0
        ∷ 0
        ∷ 0
        ∷ 1
        ∷ 0
        ∷ 67
        ∷ 39
        ∷ replicate 494 0)

abbrev two_records_file : BtrieveFile
two_records_file = record {
  header = record {
    version = 6;
    page_size = 512;
    logical_rec_len = 2;
    physical_rec_len = 4;
    key_count = 0;
    record_count = 0;
    page_count = 0;
  };
  bytes = two_records;
}

abbrev two_records_source : SourceFile
two_records_source = record {
  table_name = codes "T";
  file_name = codes "T.B";
  content = some two_records;
}

abbrev pub text_field : IntField
text_field = record {
  num = 1;
  name = codes "NAME";
  native_type = type_string;
  length = 2;
  offset = 0;
  field_index = none;
  default_value = none;
}

abbrev pub text_table : IntFile
text_table = record {
  table_name = codes "T";
  schema_name = [];
  db_name = [];
  record_length = 2;
  page_size = 512;
  file_flags = 0;
  ignore_null_values = false;
  trim_string_fields = false;
  translate_oem_to_ansi = false;
  primary_index = none;
  local_cache = false;
  driver_name = [];
  server_name = [];
  permanent_int = false;
  number_df_fields = 0;
  source_file = [];
  source_path = [];
  source_dir = [];
  fields = text_field ∷ [];
  indexes = [];
}

-- Clients that keep the statements, and the values bound to them.
abbrev keeping : Clients (List (Str × List Value))
keeping = record {
  execute = λ sql s. (none, s ++ (sql, []) ∷ []);
  prepare = λ sql s. (none, s);
  run = λ sql values s. (none, s ++ (sql, values) ∷ []);
  load_table = λ name s. (inl name, s);
  upsert_table = λ table s. (none, s);
}

abbrev one_by_one : ImportOptions
one_by_one = record {
  create = false;
  truncate = false;
  dry_run = false;
  batch = 1;
  auto_schema = false;
  save_schema = false;
  collation = [];
}

abbrev two_rows : List DecodedRow
two_rows = ((codes "NAME", codes "'AB'") ∷ []) ∷ ((codes "NAME", codes "'C'''") ∷ []) ∷ []

abbrev no_stats : ImportStats
no_stats = record { files_ok = 0; files_skipped = 0; records = 0; log = [] }

abbrev dry : ImportOptions
dry = record one_by_one { create = true; truncate = true; dry_run = true; auto_schema = true }

dry_run_example :
    (files_loop zero_floats keeping sqlite dry none (two_records_source ∷ []) no_stats []).1 ≡ []
dry_run_example =
    files_loop-dry_run zero_floats keeping sqlite dry refl refl (λ name s. refl) none
      (two_records_source ∷ []) no_stats []
