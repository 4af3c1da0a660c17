-- ===== src/Importer/Schema/Fields.antt =====
-- crates/btr-types/src/bfile.rs, `schema_to_int` and `covered_bytes`: the fields and indexes that
-- the keys of a .B file give, and types.rs `IntIndex::key_len`.
pub mod Refers
pub mod Loops
pub mod Sorted
pub mod Matches
use wx_btrieve_sql_driver.Base.{
  Bool, List, Option, Str, [], and_then, any, codes, false, filter_map, find, if◌then◌else◌, length,
  ltb, none, show_nat, some, suc, sum, zero, ℕ, ◌%◌, ◌&&◌, ◌++◌, ◌+◌, ◌-◌, ◌==◌, ◌^◌, ◌∷◌,
}
use wx_btrieve_sql_driver.Importer.Schema.{
  BtrieveKey, BtrieveSchema, BtrieveSeg, IndexSegment, IntFile, IntIndex,
}
use wx_btrieve_sql_driver.Schema.{IntField}

-- `IntIndex::key_len`; the sum of `u32`s wraps.
unfoldable pub key_len : IntIndex → List IntField → ℕ
key_len ix fields =
    sum (
      filter_map
        (λ (s : IndexSegment).
          and_then (find (λ (f : IntField). f.num == s.field_num) fields)
            (λ (f : IntField). some f.length))
        ix.segments)
    % 2 ^ 32

-- The loop's variables: the fields so far, and the number of the next one.
pub record Numbering : Type 0 where
  pub fields : List IntField
  pub field_num : ℕ

abbrev pub same_place : BtrieveSeg → IntField → Bool
same_place seg f = f.offset == seg.offset && f.length == seg.length

-- The field made for the `n`-th segment of a key; the key's number is a `u16`.
unfoldable pub generated_field : ℕ → ℕ → BtrieveSeg → ℕ → IntField
generated_field key_num n seg num = record {
  num = num;
  name = codes "K" ++ show_nat ((key_num + 1) % 65536) ++ codes "_SEG" ++ show_nat n;
  native_type = seg.data_type;
  length = seg.length;
  offset = seg.offset;
  field_index = some (key_num + 1);
  default_value = none;
}

abbrev pub with_field : ℕ → ℕ → BtrieveSeg → Numbering → Option IntField → ℕ × Numbering
with_field key_num n seg st (some f) = (f.num, st)
with_field key_num n seg st none = (
  st.field_num,
  record {
    fields = st.fields ++ generated_field key_num n seg st.field_num ∷ [];
    field_num = st.field_num + 1;
  },
)

-- The number of the field for a segment: of the first at its place, or of a new one.
unfoldable pub field_for : ℕ → ℕ → BtrieveSeg → Numbering → ℕ × Numbering
field_for key_num n seg st = with_field key_num n seg st (find (same_place seg) st.fields)

abbrev pub index_segment : ℕ → BtrieveSeg → IndexSegment
index_segment fnum seg = record {
  field_num = fnum;
  attrs = seg.attributes;
  descending = seg.descending;
  null_value = seg.null_value;
}

-- The loop over the segments of a key, from its `n`-th on.
unfoldable pub segments_loop : ℕ → ℕ → List BtrieveSeg → Numbering → List IndexSegment × Numbering
segments_loop key_num n [] st = ([], st)
segments_loop key_num n (seg ∷ segs) st =
    let (fnum, st') = field_for key_num n seg st in
    let (rest, out) = segments_loop key_num (n + 1) segs st' in (index_segment fnum seg ∷ rest, out)

abbrev pub index_of : ℕ → List IndexSegment → List IntIndex
index_of key_num [] = []
index_of key_num (s ∷ segs) =
    record { num = key_num + 1; num_segments = length (s ∷ segs); segments = s ∷ segs } ∷ []

-- The loop over the keys.
unfoldable pub keys_loop : List BtrieveKey → Numbering → List IntIndex × Numbering
keys_loop [] st = ([], st)
keys_loop (key ∷ keys) st =
    let (segs, st') = segments_loop key.number 1 key.segments st in
    let (rest, out) = keys_loop keys st' in (index_of key.number segs ++ rest, out)

-- `sort_by_key(|f| f.offset)`, which is stable
unfoldable pub insert_by_offset : IntField → List IntField → List IntField
insert_by_offset f [] = f ∷ []
insert_by_offset f (g ∷ gs) =
    let rest = insert_by_offset f gs in if ltb g.offset f.offset then g ∷ rest else f ∷ g ∷ gs

unfoldable pub sort_by_offset : List IntField → List IntField
sort_by_offset [] = []
sort_by_offset (f ∷ fs) = insert_by_offset f (sort_by_offset fs)

unfoldable pub schema_to_int : BtrieveSchema → Str → Str → IntFile
schema_to_int schema table_name source_file =
    let (indexes, out) = keys_loop schema.keys (record { fields = []; field_num = 1 }) in
    record {
      table_name = table_name;
      schema_name = [];
      db_name = [];
      record_length = schema.record_length;
      page_size = schema.page_size;
      file_flags = schema.file_flags;
      ignore_null_values = false;
      trim_string_fields = false;
      translate_oem_to_ansi = false;
      primary_index = none;
      local_cache = false;
      driver_name = [];
      server_name = [];
      permanent_int = false;
      number_df_fields = 0;
      source_file = source_file;
      source_path = [];
      source_dir = [];
      fields = sort_by_offset out.fields;
      indexes = indexes;
    }

-- The set of the bytes of a segment, onto `seen`; the end of a segment is a `u16`.
unfoldable pub cover : ℕ → ℕ → List ℕ → List ℕ
cover zero at seen = seen
cover (suc n) at seen = cover n (at + 1) (if any (λ x. x == at) seen then seen else at ∷ seen)

abbrev pub cover_segments : List BtrieveSeg → List ℕ → List ℕ
cover_segments [] seen = seen
cover_segments (seg ∷ segs) seen =
    cover_segments segs (cover ((seg.offset + seg.length) % 65536 - seg.offset) seg.offset seen)

abbrev pub cover_keys : List BtrieveKey → List ℕ → List ℕ
cover_keys [] seen = seen
cover_keys (key ∷ keys) seen = cover_keys keys (cover_segments key.segments seen)

unfoldable pub covered_bytes : BtrieveSchema → ℕ
unfolding cover
covered_bytes schema = length (cover_keys schema.keys [])
