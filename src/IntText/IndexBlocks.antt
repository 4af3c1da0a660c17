-- ===== src/IntText/IndexBlocks.antt =====
-- int.rs and export.rs: whole indexes, one after the other.
use mathlib.Core.List.{append_assoc, append-nil}
use wx_btrieve_sql_driver.Base.{
  All, Bool, List, Str, [], ap, codes, false, if◌then◌else◌, is_empty, length, map, parse_i64, pos,
  refl, show_int, show_nat, some, sym, trim, trim_end, true, unwrap_or, ℕ, ◌++◌, ◌∙◌, ◌∷◌, ◌≡◌, ◌≤◌,
}
use wx_btrieve_sql_driver.Importer.Schema.{IndexSegment, IntIndex}
use wx_btrieve_sql_driver.Importer.Sqlsrv.Decimals.{trim-show_int}
use wx_btrieve_sql_driver.IntText.IndexLines.{
  IsIndex, all_segment_lines, all_stored, cleared, current, index_line-kv, stored,
}
use wx_btrieve_sql_driver.IntText.Lines.{index_entry}
use wx_btrieve_sql_driver.IntText.Numbers.{parse_unsigned-show_nat, show_nat-IsWord}
use wx_btrieve_sql_driver.IntText.Parse.{
  IndexState, first_index_state, flush_index, index_step, indexes_loop, parse_u32, u32_max,
}
use wx_btrieve_sql_driver.IntText.Render.{kv, render_all, render_index, render_segments}

abbrev terminator : List Str
terminator = codes "INDEX_SEGMENT_FIELD 0" ∷ codes "INDEX_SEGMENT_FLAG -1" ∷ [] ∷ []

terminator_lines :
    (ixs : List IntIndex) (n count : ℕ) (segs : List IndexSegment) (ls : List Str)
    → indexes_loop (terminator ++ ls) (current ixs n count segs)
      ≡ indexes_loop ls (current ixs n count segs)
unfolding index_entry index_step trim trim_end parse_i64
terminator_lines ixs n count segs ls =
    ap (λ l. indexes_loop ls (current ixs n count l)) (append-nil segs)

count_read : (n : ℕ) → n ≤ u32_max → unwrap_or (parse_u32 (trim (show_nat n))) 0 ≡ n
unfolding show_int
count_read n fits =
    ap (λ s. unwrap_or (parse_u32 s) 0) (trim-show_int (pos n))
    ∙ ap (λ o. unwrap_or o 0) (parse_unsigned-show_nat u32_max n fits)

-- The state behind the lines of an index.
abbrev behind_index : IndexState → IntIndex → IndexState
behind_index st ix = current (flush_index st) ix.num (length ix.segments) (map cleared ix.segments)

index_lines :
    (ix : IntIndex) (ls : List Str) (st : IndexState)
    → IsIndex ix
    → indexes_loop (render_index ix ++ ls) st ≡ indexes_loop ls (behind_index st ix)
unfolding index_step
index_lines ix ls st valid =
    let n = length ix.segments in
    let tail_lines = terminator ++ ls in
    let started = record first_index_state {
      indexes = flush_index st;
      cur_idx_num = some ix.num;
    } in
    let after_count = render_segments ix.segments ++ tail_lines in
    let after_num = kv (codes "INDEX_NUMBER_SEGMENTS") (show_nat n) ∷ after_count in
    ap
      (λ l.
        indexes_loop
          (kv (codes "INDEX_NUMBER") (show_nat ix.num)
            ∷ kv (codes "INDEX_NUMBER_SEGMENTS") (show_nat n)
            ∷ l)
          st)
      (append_assoc (render_segments ix.segments) terminator ls)
    ∙ index_line-kv (codes "INDEX_NUMBER") (show_nat ix.num) after_num st (refl, refl)
        (show_nat-IsWord ix.num)
    ∙ ap
        (λ o.
          indexes_loop after_num
            (record first_index_state { indexes = flush_index st; cur_idx_num = o }))
        (parse_unsigned-show_nat u32_max ix.num valid.num)
    ∙ index_line-kv (codes "INDEX_NUMBER_SEGMENTS") (show_nat n) after_count started (refl, refl)
        (show_nat-IsWord n)
    ∙ ap (λ k. indexes_loop after_count (record started { cur_num_segs = k }))
        (count_read n valid.num_segments)
    ∙ all_segment_lines (flush_index st) ix.num n [] ix.segments tail_lines valid.segments
    ∙ terminator_lines (flush_index st) ix.num n (map cleared ix.segments) ls

flush_if :
    (b : Bool) (ixs : List IntIndex) (ix : IntIndex)
    → (if b then ixs else ixs ++ ix ∷ []) ≡ ixs ++ (if b then [] else ix ∷ [])
flush_if true ixs ix = sym (append-nil ixs)
flush_if false ixs ix = refl

flush_behind :
    (st : IndexState) (ix : IntIndex)
    → flush_index (behind_index st ix) ≡ flush_index st ++ stored ix
flush_behind st ix =
    flush_if (is_empty (map cleared ix.segments)) (flush_index st) (record {
      num = ix.num;
      num_segments = length ix.segments;
      segments = map cleared ix.segments;
    })

-- The lines of all indexes, at the end of the text.
pub all_index_lines :
    (ixs : List IntIndex) (st : IndexState)
    → All IsIndex ixs
    → flush_index (indexes_loop (render_all render_index ixs) st) ≡ flush_index st ++ all_stored ixs
all_index_lines [] st valid = sym (append-nil (flush_index st))
all_index_lines (ix ∷ ixs) st valid =
    ap flush_index (index_lines ix (render_all render_index ixs) st valid.0)
    ∙ all_index_lines ixs (behind_index st ix) valid.1
    ∙ ap (λ l. l ++ all_stored ixs) (flush_behind st ix)
    ∙ append_assoc (flush_index st) (stored ix) (all_stored ixs)
