-- ===== src/IntText/Parse.antt =====
-- int.rs: `parse`, with its loops over the entries. An `i32` is its pattern of 32 bits.
use wx_btrieve_sql_driver.Base.{
  Bool, List, Option, Str, [], and_then, codes, eq_ignore_ascii_case, false, if◌then◌else◌, int_eq,
  is_empty, ltb, negsuc, none, not, parse_i64, parse_unsigned, pos, some, str_eq, to_word, trim,
  unwrap_or, ℕ, ℤ, ◌&&◌, ◌++◌, ◌-◌, ◌==◌, ◌^◌, ◌∷◌,
}
use wx_btrieve_sql_driver.Importer.Schema.{IndexSegment, IntIndex}
use wx_btrieve_sql_driver.IntText.Lines.{field_entry, index_entry, lines}
use wx_btrieve_sql_driver.Schema.{IntField}

abbrev pub u32_max : ℕ
u32_max = 2 ^ 32 - 1

abbrev pub parse_u32 : Str → Option ℕ
parse_u32 = parse_unsigned u32_max

abbrev pub in_i32 : ℤ → Option ℤ
in_i32 (pos n) = if ltb n (2 ^ 31) then some (pos n) else none
in_i32 (negsuc n) = if ltb n (2 ^ 31) then some (negsuc n) else none

-- `parse::<i32>`
abbrev pub parse_i32 : Str → Option ℤ
parse_i32 s = and_then (parse_i64 s) in_i32

-- The variables of the loop over the fields.
pub record FieldState : Type 0 where
  pub fields : List IntField
  pub cur_num : Option ℕ
  pub cur_name : Str
  pub cur_type : ℕ
  pub cur_len : ℕ
  pub cur_off : ℕ
  pub cur_fidx : Option ℕ
  pub cur_default : Option Str

abbrev pub first_field_state : FieldState
first_field_state = record {
  fields = [];
  cur_num = none;
  cur_name = [];
  cur_type = 0;
  cur_len = 0;
  cur_off = 0;
  cur_fidx = none;
  cur_default = none;
}

abbrev pub cur_field : FieldState → ℕ → IntField
cur_field st n = record {
  num = n;
  name = st.cur_name;
  native_type = st.cur_type;
  length = st.cur_len;
  offset = st.cur_off;
  field_index = st.cur_fidx;
  default_value = st.cur_default;
}

-- `flush_field`: the fields with the current one.
abbrev pub flush_field : FieldState → List IntField
flush_field st = elim st.cur_num [
  | none ↦ st.fields
  | some n ↦ if is_empty st.cur_name then st.fields else st.fields ++ cur_field st n ∷ []
]

unfoldable pub field_step : FieldState → Str → Str → FieldState
field_step st key val =
    if str_eq key (codes "FIELD_NUMBER")
    then record first_field_state { fields = flush_field st; cur_num = parse_u32 val }
    else if str_eq key (codes "FIELD_NAME")
    then record st { cur_name = val }
    else if str_eq key (codes "FIELD_NATIVE_TYPE")
    then record st { cur_type = to_word (2 ^ 32) (unwrap_or (parse_i32 val) (pos 0)) }
    else if str_eq key (codes "FIELD_NATIVE_LENGTH")
    then record st { cur_len = unwrap_or (parse_u32 val) 0 }
    else if str_eq key (codes "FIELD_NATIVE_OFFSET")
    then record st { cur_off = unwrap_or (parse_u32 val) 0 }
    else if str_eq key (codes "FIELD_INDEX")
    then record st { cur_fidx = parse_u32 val }
    else if str_eq key (codes "FIELD_DEFAULT_VALUE")
    then record st { cur_default = if is_empty val then none else some val }
    else st

abbrev pub field_line : FieldState → Option (Str × Str) → FieldState
field_line st none = st
field_line st (some (key, val)) = field_step st key val

abbrev pub fields_loop : List Str → FieldState → FieldState
fields_loop [] st = st
fields_loop (raw ∷ raws) st = fields_loop raws (field_line st (field_entry raw))

-- The fields of an INT text.
unfoldable pub parse_fields : Str → List IntField
unfolding field_step field_entry
parse_fields input = flush_field (fields_loop (lines input) first_field_state)

-- The variables of the loop over the indexes.
pub record IndexState : Type 0 where
  pub indexes : List IntIndex
  pub cur_idx_num : Option ℕ
  pub cur_num_segs : ℕ
  pub cur_segs : List IndexSegment
  pub pending_fnum : Option ℕ
  pub pending_desc : Bool
  pub pending_null_value : ℕ

abbrev pub first_index_state : IndexState
first_index_state = record {
  indexes = [];
  cur_idx_num = none;
  cur_num_segs = 0;
  cur_segs = [];
  pending_fnum = none;
  pending_desc = false;
  pending_null_value = 0;
}

-- `flush_index`: the indexes with the current one.
abbrev pub flush_index : IndexState → List IntIndex
flush_index st = elim st.cur_idx_num [
  | none ↦ st.indexes
  | some n ↦
      if is_empty st.cur_segs
      then st.indexes
      else st.indexes
        ++ record { num = n; num_segments = st.cur_num_segs; segments = st.cur_segs } ∷ []
]

-- The segment of an INDEX_SEGMENT_FLAG line, if its field is not 0 and its flag is not -1.
abbrev pub segment_for : Option ℕ → ℤ → IndexState → List IndexSegment
segment_for none flag st = []
segment_for (some fnum) flag st =
    if not (fnum == 0) && not (int_eq flag (negsuc 0))
    then record {
      field_num = fnum;
      attrs = to_word 65536 flag;
      descending = st.pending_desc;
      null_value = st.pending_null_value;
    }
      ∷ []
    else []

abbrev pub clear_pending : Option ℕ → IndexState → IndexState
clear_pending fnum st = record st {
  pending_fnum = fnum;
  pending_desc = false;
  pending_null_value = 0;
}

unfoldable pub index_step : IndexState → Str → Str → IndexState
unfolding trim
index_step st key val =
    if str_eq key (codes "INDEX_NUMBER")
    then record first_index_state { indexes = flush_index st; cur_idx_num = parse_u32 val }
    else if str_eq key (codes "INDEX_NUMBER_SEGMENTS")
    then record st { cur_num_segs = unwrap_or (parse_u32 (trim val)) 0 }
    else if str_eq key (codes "INDEX_SEGMENT_FIELD")
    then clear_pending (parse_u32 val) st
    else if str_eq key (codes "INDEX_SEGMENT_DIRECTION")
    then record st { pending_desc = eq_ignore_ascii_case (trim val) (codes "DESCENDING") }
    else if str_eq key (codes "INDEX_SEGMENT_NULL_VALUE")
    then record st { pending_null_value = unwrap_or (parse_unsigned 255 (trim val)) 0 }
    else if str_eq key (codes "INDEX_SEGMENT_FLAG")
    then (let flag = unwrap_or (parse_i32 val) (negsuc 0) in
        clear_pending none
          (record st { cur_segs = st.cur_segs ++ segment_for st.pending_fnum flag st }))
    else st

abbrev pub index_line : IndexState → Option (Str × Str) → IndexState
index_line st none = st
index_line st (some (key, val)) = index_step st key val

abbrev pub indexes_loop : List Str → IndexState → IndexState
indexes_loop [] st = st
indexes_loop (raw ∷ raws) st = indexes_loop raws (index_line st (index_entry raw))

unfoldable pub parse_indexes : Str → List IntIndex
unfolding index_step index_entry
parse_indexes input = flush_index (indexes_loop (lines input) first_index_state)
