-- ===== src/Importer/Schema.antt =====
-- crates/btr-types/src/bfile.rs and types.rs: the schema of a .B file, and that of an INT file.
pub mod Parse
pub mod Keys
pub mod Fields
use wx_btrieve_sql_driver.Base.{Bool, List, Option, Str, ℕ}
use wx_btrieve_sql_driver.Schema.{IntField}

pub data RecordKind : Type 0 where
  fixed : RecordKind
  variable : RecordKind
  variable_truncated : RecordKind

pub record BtrieveSeg : Type 0 where
  pub offset : ℕ
  pub length : ℕ
  pub data_type : ℕ
  pub attributes : ℕ
  pub null_value : ℕ
  pub descending : Bool
  pub allows_dups : Bool

pub record BtrieveKey : Type 0 where
  pub number : ℕ
  pub segments : List BtrieveSeg

pub record BtrieveSchema : Type 0 where
  pub is_v6 : Bool
  pub record_length : ℕ
  pub physical_rec_length : ℕ
  pub page_size : ℕ
  pub page_count : ℕ
  pub record_count : ℕ
  pub file_flags : ℕ
  pub record_kind : RecordKind
  pub keys : List BtrieveKey

pub record IndexSegment : Type 0 where
  pub field_num : ℕ
  pub attrs : ℕ
  pub descending : Bool
  pub null_value : ℕ

pub record IntIndex : Type 0 where
  pub num : ℕ
  pub num_segments : ℕ
  pub segments : List IndexSegment

pub record IntFile : Type 0 where
  pub table_name : Str
  pub schema_name : Str
  pub db_name : Str
  pub record_length : ℕ
  pub page_size : ℕ
  pub file_flags : ℕ
  pub ignore_null_values : Bool
  pub trim_string_fields : Bool
  pub translate_oem_to_ansi : Bool
  pub primary_index : Option ℕ
  pub local_cache : Bool
  pub driver_name : Str
  pub server_name : Str
  pub permanent_int : Bool
  pub number_df_fields : ℕ
  pub source_file : Str
  pub source_path : Str
  pub source_dir : Str
  pub fields : List IntField
  pub indexes : List IntIndex
