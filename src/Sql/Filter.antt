-- ===== src/Sql/Filter.antt =====
-- sql_helpers.rs: the filter terms of the extended ops, parsed from a descriptor and rendered as
-- a WHERE fragment.
pub mod Precedence
use Prim.Native.String.{String}
use wx_btrieve_sql_driver.Base.{
  Bool, List, Option, Str, [], codes, false, find, from_le_bytes, get_or, if◌then◌else◌, is_empty,
  join, keep, leb, length, ltb, map, min, none, not, or_else, pos, refl, replicate, slice, some,
  suc, take, true, zero, ℕ, ◌%◌, ◌&&◌, ◌++◌, ◌+◌, ◌-◌, ◌==◌, ◌∷◌, ◌≡◌,
}
use wx_btrieve_sql_driver.Dialect.{Backend, mssql, param_marker, quote_ident}
use wx_btrieve_sql_driver.Floats.{Floats}
use wx_btrieve_sql_driver.Record.Slices.{field_slice}
use wx_btrieve_sql_driver.Record.Unpack.{unpack_slot}
use wx_btrieve_sql_driver.Schema.{IntField, TableMeta}
use wx_btrieve_sql_driver.Sql.KeyWhere.{
  Cmp, and_sep, comparison, eq, ge, gt, le, lt, ne, or_sep, parens,
}
use wx_btrieve_sql_driver.SqlParam.{SqlValue, i64}

pub data Connector : Type 0 where
  and_next or_next last : Connector

pub record TermClause : Type 0 where
  pub col_ref : Str
  pub cmp : Cmp
  pub value : SqlValue
  pub connector : Connector

unfoldable pub cmp_for_code : ℕ → Option Cmp
cmp_for_code code =
    if code == 0
    then some eq
    else if code == 1
    then some gt
    else if code == 2
    then some ge
    else if code == 3
    then some lt
    else if code == 4
    then some le
    else if code == 5
    then some ne
    else none

-- `f.offset as u16 == offset`, then the field that covers the offset.
unfoldable pub field_at_offset : TableMeta → ℕ → Option IntField
field_at_offset meta offset =
    or_else (find (λ f. f.offset % 65536 == offset) meta.fields)
      (find (λ f. leb f.offset offset && ltb offset (f.offset + f.length)) meta.fields)

unfoldable pub decode_term_value : Floats → IntField → List ℕ → SqlValue
decode_term_value fl field raw =
    let n = min (length raw) field.length in
    let rec = take n raw ++ replicate (field.length - n) 0 in
    unpack_slot fl field (field_slice rec 0 field.length)

-- A little-endian `u16` or `u32` at an offset.
abbrev pub u16_at : List ℕ → ℕ → ℕ
u16_at xs off = from_le_bytes (slice off 2 xs)

abbrev pub u32_at : List ℕ → ℕ → ℕ
u32_at xs off = from_le_bytes (slice off 4 xs)

abbrev connector_of : Bool → ℕ → Connector
connector_of true code = last
connector_of false code = if code == 1 then and_next else if code == 2 then or_next else last

-- The loop: `left` terms are to come, the next header stands at `off`.
unfoldable pub parse_terms :
    Floats → Backend → TableMeta → List ℕ → ℕ → ℕ → Option (List TermClause × ℕ)
parse_terms fl b meta desc off zero = some ([], off)
parse_terms fl b meta desc off (suc left) =
    let field_len = u16_at desc (off + 1) in
    let field_off = u16_at desc (off + 3) in
    let value_start = off + 7 in
    let rest = parse_terms fl b meta desc (value_start + field_len) left in
    if ltb (length desc) (off + 7)
    then none
    else if ltb (length desc) (value_start + field_len)
    then none
    else elim (cmp_for_code (get_or desc (off + 5) 0)) [
      | none ↦ none
      | some c ↦ elim (field_at_offset meta field_off) [
        | none ↦ none
        | some field ↦
            let term : TermClause = record {
              col_ref = quote_ident b field.name;
              cmp = c;
              value = decode_term_value fl field (slice value_start field_len desc);
              connector = connector_of (left == 0) (get_or desc (off + 6) 0);
            } in
            elim rest [ none ↦ none | some (terms, end) ↦ some (term ∷ terms, end) ]
      ]
    ]

unfoldable pub parse_filter_terms :
    Floats → Backend → TableMeta → List ℕ → ℕ → ℕ → Option (List TermClause × ℕ)
unfolding parse_terms
parse_filter_terms fl b meta desc start n_terms = parse_terms fl b meta desc start n_terms

-- The loop: `groups` is `or_groups` before its last one, `current` the last.
abbrev pub group_terms :
    Backend
    → List TermClause
    → List (List Str)
    → List Str
    → List SqlValue
    → List (List Str) × List SqlValue
group_terms b [] groups current params = (groups ++ current ∷ [], params)
group_terms b (t ∷ ts) groups current params =
    let (clause, params') = comparison b t.col_ref t.cmp t.value params in
    let group = current ++ clause ∷ [] in
    elim t.connector [
      | or_next ↦ group_terms b ts (groups ++ group ∷ []) [] params'
      | and_next ↦ group_terms b ts groups group params'
      | last ↦ group_terms b ts groups group params'
    ]

abbrev pub render_group : List Str → Str
render_group [] = []
render_group (clause ∷ []) = clause
render_group (c ∷ d ∷ rest) = parens (join and_sep (c ∷ d ∷ rest))

unfoldable pub build_filter_where : Backend → List TermClause → List SqlValue → Str × List SqlValue
build_filter_where b [] params = (codes "1=1", params)
build_filter_where b (t ∷ ts) params =
    let (groups, out) = group_terms b (t ∷ ts) [] [] params in
    (join or_sep (map render_group (keep (λ g. not (is_empty g)) groups)), out)

abbrev term_on : String → ℕ → Connector → TermClause
term_on c n conn = record { col_ref = codes c; cmp = eq; value = i64 (pos n); connector = conn }

build_where_and_or_precedence :
    build_filter_where mssql
      (term_on "[A]" 1 and_next ∷ term_on "[B]" 2 or_next ∷ term_on "[C]" 3 last ∷ [])
      []
    ≡ (codes "([A] = ? AND [B] = ?) OR [C] = ?", i64 (pos 1) ∷ i64 (pos 2) ∷ i64 (pos 3) ∷ [])
unfolding build_filter_where param_marker
build_where_and_or_precedence = refl
