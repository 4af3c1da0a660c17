-- ===== src/Ops/Extended.antt =====
-- ops/get_ext.rs and step_ext.rs: the extended walks, which return a batch of projected records.
use mathlib.Core.List.{flatten}
use wx_btrieve_sql_driver.Base.{
  List, Option, Str, [], and_then, codes, if◌then◌else◌, is_empty, leb, length, ltb, map, min,
  negsuc, none, or_else, pos, replicate, slice, some, suc, to_le_bytes, true, zero, ℕ, ℤ, ◌%◌, ◌++◌,
  ◌+◌, ◌-◌, ◌==◌, ◌^◌, ◌||◌, ◌∷◌,
}
use wx_btrieve_sql_driver.Client.{fetch_with}
use wx_btrieve_sql_driver.Dialect.{Backend, select_with_limit}
use wx_btrieve_sql_driver.Floats.{Floats}
use wx_btrieve_sql_driver.Ops.Fetch.{Fetched, Names, after_recnum, fetch_keyset_one_with, names_of}
use wx_btrieve_sql_driver.Ops.Get.{continuation, first_index_num}
use wx_btrieve_sql_driver.Ops.Step.{batch_rows}
use wx_btrieve_sql_driver.Schema.{TableMeta}
use wx_btrieve_sql_driver.Sql.Columns.{
  Dir, build_order_by_cols, direction, extract_key_vals, index_col_refs, is_forward,
}
use wx_btrieve_sql_driver.Sql.Filter.{TermClause, build_filter_where, parse_filter_terms, u16_at}
use wx_btrieve_sql_driver.Sql.KeyWhere.{parens}
use wx_btrieve_sql_driver.SqlParam.{SqlValue}
use wx_btrieve_sql_driver.Status.{btr_data_too_short, btr_eof, btr_key_not_found}
use wx_btrieve_sql_driver.World.{
  HandleEntry, M, World, gets, leave, leave_if, on_result, or_leave, pure, recode, settle, update,
  ◌>>=◌, ◌>>◌,
}
use wx_btrieve_sql_driver.World.Handles.{
  data_bytes, data_is_null, data_len_in, modify_handle, open_handle, poke, posblk_key, set_data_len,
}

-- `GneDesc` and `SneDesc`, the fields that are read again.
pub record ExtDesc : Type 0 where
  pub max_recs : ℕ
  pub field_extracts : List (ℕ × ℕ)
  pub terms : List TermClause

-- The (length, offset) pairs of the fields to extract.
unfoldable pub parse_extracts : List ℕ → ℕ → ℕ → Option (List (ℕ × ℕ))
parse_extracts desc off zero = some []
parse_extracts desc off (suc left) =
    let rest = parse_extracts desc (off + 4) left in
    if ltb (length desc) (off + 4)
    then none
    else elim rest [ none ↦ none | some xs ↦ some ((u16_at desc off, u16_at desc (off + 2)) ∷ xs) ]

abbrev parse_retrieval : List ℕ → List TermClause × ℕ → Option ExtDesc
parse_retrieval desc (terms, off) =
    let extracts = parse_extracts desc (off + 4) (u16_at desc (off + 2)) in
    if ltb (length desc) (off + 4) then none else elim extracts [
      | none ↦ none
      | some xs ↦ some (record { max_recs = u16_at desc off; field_extracts = xs; terms = terms })
    ]

-- `parse_gne` and `parse_sne`
unfoldable pub parse_ext : Floats → Backend → TableMeta → List ℕ → Option ExtDesc
unfolding parse_extracts
parse_ext fl b meta desc =
    if ltb (length desc) 8
    then none
    else and_then (parse_filter_terms fl b meta desc 8 (u16_at desc 6)) (parse_retrieval desc)

-- One extracted field, padded by zeros behind the record's end.
abbrev pub extract : List ℕ → ℕ × ℕ → List ℕ
extract packed (len, off) =
    let have = length packed - off in
    if leb (off + len) (length packed)
    then slice off len packed
    else slice off have packed ++ replicate (len - have) 0

unfoldable pub project : List ℕ → List (ℕ × ℕ) → List ℕ
project packed [] = packed
project packed (x ∷ xs) = flatten (map (extract packed) (x ∷ xs))

abbrev both : Str → Str → Str
both [] f = f
both (c ∷ cs) [] = c ∷ cs
both (c ∷ cs) (d ∷ ds) = parens (c ∷ cs) ++ codes " AND " ++ parens (d ∷ ds)

-- The filter behind the walk's own predicate; its markers go on from `params`.
abbrev with_filter : Backend → List TermClause → Str × List SqlValue → Str × List SqlValue
with_filter b [] (base, params) = (base, params)
with_filter b (t ∷ ts) (base, params) =
    let (f, out) = build_filter_where b (t ∷ ts) params in (both base f, out)

unfoldable pub fetch_one_extended : ℕ → TableMeta → Dir → List TermClause → M (Fetched × ℕ)
unfolding open_handle fetch_keyset_one_with
fetch_one_extended hid meta dir terms = do
  h ← open_handle hid
  idx_num ← or_leave (or_else h.get_index_num (first_index_num meta)) btr_eof
  names ← gets (names_of meta)
  let refs = index_col_refs names.b meta idx_num
  let order_by = build_order_by_cols refs dir true names.rc
  let q =
      with_filter names.b terms
        (continuation names refs h.get_last_keys h.get_last_desc h.get_last_recnum dir)
  row ←
      fetch_keyset_one_with meta (select_with_limit names.b 1 names.cols names.tref q.0 order_by)
        q.1
  gets (λ w. (row, idx_num))

abbrev ext_currency : ℕ → List SqlValue → ℤ → Dir → HandleEntry → HandleEntry
ext_currency idx_num keys rn dir h = record h {
  get_index_num = some idx_num;
  get_last_keys = keys;
  get_last_recnum = some rn;
  get_dir = dir;
  last_recnum = some rn;
}

-- No further row ends the walk.
abbrev pub walk_end : List (ℤ × List ℕ) → ℕ → M (List (ℤ × List ℕ))
walk_end acc code = if code == btr_key_not_found || code == btr_eof then pure acc else leave code

abbrev pub ext_step : ℕ → TableMeta → Dir → Fetched → ℕ → M (Unit {0})
ext_step hid meta dir row idx_num = do
  keys ← gets (λ w. extract_key_vals w.floats meta idx_num row.fields)
  update (modify_handle hid (ext_currency idx_num keys row.recnum dir))

-- The walk: `left` more records at most, `used` bytes taken behind the 2 of the count.
unfoldable pub extended_loop :
    ℕ → TableMeta → Dir → ExtDesc → ℕ → ℕ → ℕ → List (ℤ × List ℕ) → M (List (ℤ × List ℕ))
unfolding fetch_one_extended modify_handle
extended_loop hid meta dir desc cap zero used acc = pure acc
extended_loop hid meta dir desc cap (suc left) used acc = do
  r ← settle (fetch_one_extended hid meta dir desc.terms)
  on_result r (walk_end acc) λ found.
      let proj = project found.0.packed desc.field_extracts in
      let rest =
        extended_loop hid meta dir desc cap left (used + 6 + length proj)
          (acc ++ (found.0.recnum, proj) ∷ []) in
      if ltb cap (2 + used + 6 + length proj)
      then (if is_empty acc then leave btr_data_too_short else pure acc)
      else ext_step hid meta dir found.0 found.1 >> rest

abbrev record_pos : ℤ → ℕ
record_pos (pos n) = n % 2 ^ 32
record_pos (negsuc n) = 0

abbrev pub record_image : ℤ × List ℕ → List ℕ
record_image (rn, proj) = to_le_bytes 2 (length proj) ++ to_le_bytes 4 (record_pos rn) ++ proj

abbrev pub batch_image : List (ℤ × List ℕ) → List ℕ
batch_image recs = to_le_bytes 2 (length recs) ++ flatten (map record_image recs)

abbrev write_batch : List (ℤ × List ℕ) → World → World
write_batch recs w = let out = batch_image recs in set_data_len (length out) (poke 0 out w)

abbrev descriptor : TableMeta → ℕ → M ExtDesc
descriptor meta cap = do
  absent ← gets data_is_null
  leave_if (absent || ltb cap 8) btr_data_too_short
  parsed ← gets (λ w. parse_ext w.floats w.settings.backend meta (data_bytes cap w))
  or_leave parsed 62

unfoldable pub run_extended : Dir → M (Unit {0})
unfolding open_handle extended_loop
run_extended dir = do
  hid ← gets posblk_key
  h ← open_handle hid
  cap ← gets data_len_in
  desc ← descriptor h.meta cap
  let max_recs = if desc.max_recs == 0 then 65535 else desc.max_recs
  recs ← extended_loop hid h.meta dir desc cap max_recs 0 []
  leave_if (is_empty recs) (if is_empty desc.terms then btr_eof else 64)
  update (write_batch recs)

abbrev step_where : Names → Dir → Option ℤ → List TermClause → Str × List SqlValue
step_where names dir last_rn terms = with_filter names.b terms (after_recnum names dir last_rn)

unfoldable pub fetch_step_batch :
    TableMeta → Option ℤ → Dir → ℕ → List TermClause → M (List (ℤ × List ℕ))
unfolding fetch_with
fetch_step_batch meta last_rn dir n terms = do
  names ← gets (names_of meta)
  let q = step_where names dir last_rn terms
  let order_by = names.rc ++ codes " " ++ direction (is_forward dir)
  rows ←
      fetch_with (select_with_limit names.b n names.cols names.tref q.0 order_by) q.1
        (length meta.fields + 1) n
  gets (λ w. batch_rows w.floats meta rows)

-- The records that fit into `cap` bytes, `used` of them taken.
unfoldable pub fitting : ℕ → ℕ → List (ℕ × ℕ) → List (ℤ × List ℕ) → List (ℤ × List ℕ)
fitting cap used extracts [] = []
fitting cap used extracts ((rn, packed) ∷ rest) =
    let proj = project packed extracts in
    let more = fitting cap (used + 6 + length proj) extracts rest in
    if ltb cap (used + 6 + length proj) then [] else (rn, proj) ∷ more

abbrev last_of : ℤ → List (ℤ × List ℕ) → ℤ
last_of rn [] = rn
last_of rn ((r, p) ∷ rest) = last_of r rest

abbrev step_currency : ℤ → Dir → HandleEntry → HandleEntry
step_currency rn dir h = record h {
  step_last_recnum = some rn;
  last_recnum = some rn;
  step_dir = dir;
  step_cache = [];
}

abbrev deliver_batch : ℕ → Dir → List (ℤ × List ℕ) → M (Unit {0})
deliver_batch hid dir [] = leave btr_data_too_short
deliver_batch hid dir ((rn, proj) ∷ rest) = do
  update (modify_handle hid (step_currency (last_of rn rest) dir))
  update (write_batch ((rn, proj) ∷ rest))

unfoldable pub run_step_extended : Dir → M (Unit {0})
unfolding open_handle fetch_step_batch modify_handle
run_step_extended dir = do
  hid ← gets posblk_key
  h ← open_handle hid
  cap ← gets data_len_in
  desc ← descriptor h.meta cap
  let max_recs = if desc.max_recs == 0 then 256 else min desc.max_recs 1024
  batch ←
      recode btr_key_not_found btr_eof
        (fetch_step_batch h.meta h.step_last_recnum dir max_recs desc.terms)
  leave_if (is_empty batch) btr_eof
  deliver_batch hid dir (fitting cap 2 desc.field_extracts batch)
