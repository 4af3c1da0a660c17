-- ===== src/Sql/Columns.antt =====
-- sql_helpers.rs: choosing an index, its columns and values, ORDER BY; state.rs: the column lists.
use wx_btrieve_sql_driver.Base.{
  Bool, List, Option, Str, [], and_then, codes, false, filter_map, get_elem?, if◌then◌else◌,
  is_empty, join, map, none, not, or_else, parse_i64, pos, some, trim, true, unwrap_or, zip_repeat,
  ℕ, ◌%◌, ◌++◌, ◌+◌, ◌/◌, ◌==◌, ◌||◌, ◌∷◌,
}
use wx_btrieve_sql_driver.Dialect.{Backend, quote_ident}
use wx_btrieve_sql_driver.Floats.{Floats}
use wx_btrieve_sql_driver.Schema.{
  IntField, RuntimeIndex, TableMeta, field_map_get, index_for_key_len, index_of_num,
  recnum_is_field,
}
use wx_btrieve_sql_driver.SqlParam.{SqlValue, f64, i64, text}

-- The `i8` direction of a walk, 1 or -1.
pub data Dir : Type 0 where
  forward backward : Dir

abbrev pub is_forward : Dir → Bool
is_forward forward = true
is_forward backward = false

unfoldable pub select_cols : Backend → TableMeta → Str
select_cols b meta = join (codes ", ") (map (λ f. quote_ident b f.name) meta.fields)

abbrev pub recnum_sql_ref : Backend → TableMeta → Str
recnum_sql_ref b meta = quote_ident b meta.recnum_col

unfoldable pub select_with_recnum : Backend → TableMeta → Str
unfolding select_cols
select_with_recnum b meta =
    if recnum_is_field meta
    then select_cols b meta
    else quote_ident b meta.recnum_col ++ codes ", " ++ select_cols b meta

unfoldable pub col_to_sql_param : Floats → IntField → Str → SqlValue
col_to_sql_param fl field val =
    let t = field.native_type in
    if t == 1 || t == 14 || t == 15
    then i64 (unwrap_or (parse_i64 (trim val)) (pos 0))
    else if t == 2
    then f64 (unwrap_or (fl.parse_f64 (trim val)) 0)
    else text val

-- `key_num` is the bit pattern of the `i16`.
unfoldable pub pick_index : TableMeta → ℕ → Option ℕ → Option RuntimeIndex
unfolding index_for_key_len
pick_index meta key_num current =
    let high = key_num / 256 in
    let lower = key_num % 256 in
    if key_num == 0xffff
    then and_then current (index_of_num meta)
    else if high == 0
    then index_of_num meta (lower + 1)
    else index_for_key_len meta lower

abbrev segment_refs : Backend → List IntField → List (ℕ × Bool) → List (Str × Bool)
segment_refs b fields segs =
    filter_map
      (λ s. elim (field_map_get fields s.0) [
        | none ↦ none
        | some f ↦ some (quote_ident b f.name, s.1)
      ])
      segs

abbrev pub refs_of_index : Backend → TableMeta → RuntimeIndex → List (Str × Bool)
refs_of_index b meta idx = segment_refs b meta.fields (zip_repeat false idx.field_nums idx.desc)

unfoldable pub index_col_refs : Backend → TableMeta → ℕ → List (Str × Bool)
index_col_refs b meta idx_num = elim (index_of_num meta idx_num) [
  | none ↦ []
  | some idx ↦ refs_of_index b meta idx
]

-- The position that a `HashMap` collected from `(f.num, i)` holds: the last field of the number.
abbrev pub last_position : ℕ → ℕ → List IntField → Option ℕ
last_position n i [] = none
last_position n i (f ∷ fs) =
    or_else (last_position n (i + 1) fs) (if f.num == n then some i else none)

unfoldable pub extract_key_vals : Floats → TableMeta → ℕ → List Str → List SqlValue
unfolding col_to_sql_param
extract_key_vals fl meta idx_num field_vals = elim (index_of_num meta idx_num) [
  | none ↦ []
  | some idx ↦
      filter_map
        (λ fnum. and_then (last_position fnum 0 meta.fields) λ i.
          and_then (get_elem? meta.fields i)
            λ f. and_then (get_elem? field_vals i) λ v. some (col_to_sql_param fl f v))
        idx.field_nums
]

abbrev pub direction : Bool → Str
direction true = codes "ASC"
direction false = codes "DESC"

unfoldable pub build_order_by_cols : List (Str × Bool) → Dir → Bool → Str → Str
build_order_by_cols col_refs dir tie_break recnum_expr =
    let fwd = is_forward dir in
    let parts = map (λ r. r.0 ++ codes " " ++ direction (if r.1 then not fwd else fwd)) col_refs in
    let tie = recnum_expr ++ codes " " ++ direction fwd in
    join (codes ", ") (if is_empty parts || tie_break then parts ++ tie ∷ [] else parts)
