-- ===== src/Tests/Fixtures.antt =====
-- A small table and sessions on it, for the concrete runs.
use wx_btrieve_sql_driver.Base.{Bool, List, Str, [], codes, false, none, pos, some, true, ℕ, ℤ, ◌∷◌}
use wx_btrieve_sql_driver.Dialect.{mssql}
use wx_btrieve_sql_driver.Floats.{zero_floats}
use wx_btrieve_sql_driver.Record.Slices.{type_int, type_string, type_zstring}
use wx_btrieve_sql_driver.Schema.{IntField, TableMeta}
use wx_btrieve_sql_driver.World.{Client, HandleEntry, Paths, World, done}
use wx_btrieve_sql_driver.World.Handles.{new_handle}

abbrev pub id_field : IntField
id_field = record {
  num = 1;
  name = codes "ID";
  native_type = type_int;
  length = 4;
  offset = 0;
  field_index = none;
  default_value = none;
}

abbrev pub name_field : IntField
name_field = record {
  num = 2;
  name = codes "NAME";
  native_type = type_zstring;
  length = 8;
  offset = 4;
  field_index = none;
  default_value = none;
}

abbrev pub note_field : IntField
note_field = record {
  num = 3;
  name = codes "NOTE";
  native_type = type_string;
  length = 4;
  offset = 12;
  field_index = none;
  default_value = none;
}

abbrev pub sample_fields : List IntField
sample_fields = id_field ∷ name_field ∷ note_field ∷ []

abbrev pub sample_columns : List Str
sample_columns = codes " -42 " ∷ codes "BOB" ∷ codes "HI" ∷ []

abbrev pub sample_meta : TableMeta
sample_meta = record {
  table_name = codes "PEOPLE";
  schema_name = codes "dbo";
  db_name = codes "HR";
  record_length = 16;
  page_size = 4096;
  file_flags = 0;
  fields = sample_fields;
  indexes =
      record {
        num = 0;
        field_nums = 1 ∷ [];
        attrs = [];
        desc = false ∷ [];
        null_values = [];
        key_len = 4;
      }
      ∷ [];
  recnum_col = codes "MDS_RECNUM";
  ignore_null_values = true;
  trim_string_fields = true;
  translate_oem_to_ansi = false;
  primary_index = none;
  local_cache = true;
}

-- Every statement succeeds and every query finds nothing.
abbrev pub willing : Client
willing = record { on_execute = λ _ _ _. done tt; on_fetch = λ _ _ _ _ _. done [] }

abbrev pub cached_rows : List (ℤ × List ℕ)
cached_rows = (pos 11, 1 ∷ 1 ∷ []) ∷ (pos 12, 2 ∷ 2 ∷ []) ∷ (pos 13, 3 ∷ 3 ∷ []) ∷ []

abbrev pub sample_handle : HandleEntry
sample_handle = record (new_handle sample_meta (codes "PEOPLE.BTR")) {
  step_cache = cached_rows;
  last_recnum = some (pos 10);
  lock_prefix = some (codes "5.17");
}

abbrev pub plain_paths : Paths
plain_paths = record { file_stem = λ p. some p; parent = λ _. none }

-- The position block names handle 7; the key buffer holds "A".
abbrev pub sample_world : Client → Bool → World
sample_world c active = record {
  floats = zero_floats;
  client = c;
  paths = plain_paths;
  settings = record {
    backend = mssql;
    database = [];
    schema = [];
    server = [];
    user = [];
    pass = [];
    driver = [];
    network = [];
    recnum_col_default = [];
    trim_strings = true;
    dir_configs = [];
  };
  client_cwd = none;
  tables = (codes "A", sample_meta) ∷ [];
  handles = (7, sample_handle) ∷ [];
  handle_ctr = 8;
  txn_active = active;
  last_error = 0;
  sent = [];
  buffers = record {
    posblk = some (7 ∷ 0 ∷ 0 ∷ 0 ∷ 0 ∷ []);
    data_buf = some (9 ∷ 9 ∷ 9 ∷ 9 ∷ []);
    data_len = some 4;
    key_buf = some (65 ∷ 0 ∷ []);
  };
}
