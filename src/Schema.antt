-- ===== src/Schema.antt =====
-- crates/wxbtrv-core/src/state.rs, the schema types: fields, indexes and table metadata, with
-- `TableMeta::new` and the lookups on a `TableMeta`.
use mathlib.Core.List.{reverse}
use wx_btrieve_sql_driver.Base.{
  Bool, List, Option, Str, and_then, any, eq_ignore_ascii_case, filter_map, find, first,
  if◌then◌else◌, map, none, or_else, some, sum, ℕ, ◌+◌, ◌==◌,
}

-- `native_type` is an `i32` by its bit pattern.
pub record IntField : Type 0 where
  pub num : ℕ
  pub name : Str
  pub native_type : ℕ
  pub length : ℕ
  pub offset : ℕ
  pub field_index : Option ℕ
  pub default_value : Option Str

pub record RuntimeIndex : Type 0 where
  pub num : ℕ
  pub field_nums : List ℕ
  pub attrs : List ℕ
  pub desc : List Bool
  pub null_values : List ℕ
  pub key_len : ℕ

pub record TableMeta : Type 0 where
  pub table_name : Str
  pub schema_name : Str
  pub db_name : Str
  pub record_length : ℕ
  pub page_size : ℕ
  pub file_flags : ℕ
  pub fields : List IntField
  pub indexes : List RuntimeIndex
  pub recnum_col : Str
  pub ignore_null_values : Bool
  pub trim_string_fields : Bool
  pub translate_oem_to_ansi : Bool
  pub primary_index : Option ℕ
  pub local_cache : Bool

pub record TableHeader : Type 0 where
  pub table_name : Str
  pub schema_name : Str
  pub db_name : Str
  pub record_length : ℕ
  pub page_size : ℕ
  pub file_flags : ℕ
  pub ignore_null_values : Bool
  pub trim_string_fields : Bool
  pub translate_oem_to_ansi : Bool
  pub primary_index : Option ℕ
  pub local_cache : Bool

pub record IndexSpec : Type 0 where
  pub num : ℕ
  pub field_nums : List ℕ
  pub attrs : List ℕ
  pub desc : List Bool
  pub null_values : List ℕ

-- `fields.iter().find(|f| f.num == n)`: the first field of that number.
abbrev pub field_of_num : List IntField → ℕ → Option IntField
field_of_num fields n = find (λ f. f.num == n) fields

-- A `HashMap` collected from `(f.num, f)`: of two fields with one number the last one stays.
abbrev pub field_map_get : List IntField → ℕ → Option IntField
field_map_get fields n = find (λ f. f.num == n) (reverse fields)

abbrev pub index_of_num : TableMeta → ℕ → Option RuntimeIndex
index_of_num meta n = find (λ ix. ix.num == n) meta.indexes

abbrev key_len_of : List IntField → List ℕ → ℕ
key_len_of fields nums = sum (map (λ f. f.length) (filter_map (field_of_num fields) nums))

abbrev runtime_index : List IntField → IndexSpec → RuntimeIndex
runtime_index fields ix = record {
  num = ix.num;
  field_nums = ix.field_nums;
  attrs = ix.attrs;
  desc = ix.desc;
  null_values = ix.null_values;
  key_len = key_len_of fields ix.field_nums;
}

abbrev recnum_field : Option ℕ → List RuntimeIndex → List IntField → Option IntField
recnum_field primary indexes fields = do
  pi ← primary
  ix ← find (λ i. i.num == pi + 1) indexes
  fnum ← first ix.field_nums
  field_of_num fields fnum
  where
    infixl 5 ◌>>=◌
    ◌>>=◌ : {A B : Type 0} → Option A → (A → Option B) → Option B
    ◌>>=◌ = and_then

unfoldable pub new_table_meta : TableHeader → List IntField → List IndexSpec → Str → TableMeta
new_table_meta header fields specs recnum_default =
    let indexes = map (runtime_index fields) specs in
    record {
      table_name = header.table_name;
      schema_name = header.schema_name;
      db_name = header.db_name;
      record_length = header.record_length;
      page_size = header.page_size;
      file_flags = header.file_flags;
      fields = fields;
      indexes = indexes;
      recnum_col = elim (recnum_field header.primary_index indexes fields) [
        | none ↦ recnum_default
        | some f ↦ f.name
      ];
      ignore_null_values = header.ignore_null_values;
      trim_string_fields = header.trim_string_fields;
      translate_oem_to_ansi = header.translate_oem_to_ansi;
      primary_index = header.primary_index;
      local_cache = header.local_cache;
    }

unfoldable pub index_for_key_len : TableMeta → ℕ → Option RuntimeIndex
index_for_key_len meta key_len =
    if key_len == 0
    then none
    else or_else (find (λ ix. ix.key_len == key_len) meta.indexes) (first meta.indexes)

abbrev pub recnum_is_field : TableMeta → Bool
recnum_is_field meta = any (λ f. eq_ignore_ascii_case f.name meta.recnum_col) meta.fields
