-- ===== src/IntText/IndexLines.antt =====
-- int.rs and export.rs: the indexes of a table, written and read.
use mathlib.Core.List.{append_assoc, append-nil}
use wx_btrieve_sql_driver.Base.{
  All, Bool, List, Str, [], ap, arith, codes, false, if◌then◌else◌, is_empty, join, length, map,
  negsuc, none, pos, refl, show_nat, some, sym, trim, trim_end, true, unwrap_or, ℕ, ◌%◌, ◌++◌, ◌<◌,
  ◌==◌, ◌∙◌, ◌∷◌, ◌≡◌, ◌≤◌,
}
use wx_btrieve_sql_driver.Importer.Schema.{IndexSegment, IntIndex}
use wx_btrieve_sql_driver.IntText.Entries.{IsKey, IsWord, entry_of-kv, word-IsValue, words-space}
use wx_btrieve_sql_driver.IntText.Lines.{index_entry, words}
use wx_btrieve_sql_driver.IntText.Numbers.{
  parse_i32-show_nat, parse_unsigned-show_nat, show_nat-IsWord,
}
use wx_btrieve_sql_driver.IntText.Parse.{
  IndexState, clear_pending, index_line, index_step, indexes_loop, segment_for, u32_max,
}
use wx_btrieve_sql_driver.IntText.Render.{kv, line_if, render_segment, render_segments}

pub record IsSegment (seg : IndexSegment) : Type 0 where
  pub some_field : (seg.field_num == 0) ≡ false
  pub field_num : seg.field_num ≤ u32_max
  pub attrs : seg.attrs < 65536

pub record IsIndex (ix : IntIndex) : Type 0 where
  pub num : ix.num ≤ u32_max
  pub num_segments : length ix.segments ≤ u32_max
  pub segments : All IsSegment ix.segments

-- A segment as its lines give it: its null value is not written.
abbrev pub cleared : IndexSegment → IndexSegment
cleared seg = record seg { null_value = 0 }

-- An index as its lines give it: counted, and none without a segment.
abbrev pub stored : IntIndex → List IntIndex
stored ix =
    if is_empty (map cleared ix.segments)
    then []
    else record {
      num = ix.num;
      num_segments = length ix.segments;
      segments = map cleared ix.segments;
    }
      ∷ []

abbrev pub all_stored : List IntIndex → List IntIndex
all_stored [] = []
all_stored (ix ∷ ixs) = stored ix ++ all_stored ixs

pub index_line-kv :
    (k v : Str) (ls : List Str) (st : IndexState)
    → IsKey k
    → IsWord v
    → indexes_loop (kv k v ∷ ls) st ≡ indexes_loop ls (index_step st k v)
unfolding index_entry
index_line-kv k v ls st key word =
    ap (λ e. indexes_loop ls (index_line st e))
      (entry_of-kv (λ rest. join (codes " ") (words rest)) k v key (word-IsValue v word)
        ∙ ap (λ x. some (k, x)) (words-space v word))

-- A current index with some segments and nothing pending.
abbrev pub current : List IntIndex → ℕ → ℕ → List IndexSegment → IndexState
current done_ixs n count segs = record {
  indexes = done_ixs;
  cur_idx_num = some n;
  cur_num_segs = count;
  cur_segs = segs;
  pending_fnum = none;
  pending_desc = false;
  pending_null_value = 0;
}

abbrev pending : List IntIndex → ℕ → ℕ → List IndexSegment → ℕ → Bool → IndexState
pending done_ixs n count segs fnum desc = record {
  indexes = done_ixs;
  cur_idx_num = some n;
  cur_num_segs = count;
  cur_segs = segs;
  pending_fnum = some fnum;
  pending_desc = desc;
  pending_null_value = 0;
}

direction_line :
    (ixs : List IntIndex) (n count : ℕ) (segs : List IndexSegment) (fnum : ℕ) (desc : Bool)
    → (ls : List Str)
    → indexes_loop
        (line_if desc (codes "INDEX_SEGMENT_DIRECTION DESCENDING") ++ ls)
        (pending ixs n count segs fnum false)
      ≡ indexes_loop ls (pending ixs n count segs fnum desc)
unfolding index_entry index_step trim trim_end
direction_line ixs n count segs fnum true ls = refl
direction_line ixs n count segs fnum false ls = refl

kept_segment :
    (st : IndexState) (fnum n : ℕ)
    → (fnum == 0) ≡ false
    → n < 65536
    → segment_for (some fnum) (pos n) st
      ≡ record {
        field_num = fnum;
        attrs = n;
        descending = st.pending_desc;
        null_value = st.pending_null_value;
      }
        ∷ []
kept_segment st fnum n some_field small_flag =
    let same : n % 65536 ≡ n = omega arith in
    rw some_field (
      ap
        (λ a.
          record {
            field_num = fnum;
            attrs = a;
            descending = st.pending_desc;
            null_value = st.pending_null_value;
          }
          ∷ [])
        same)

segment_lines :
    (ixs : List IntIndex) (n count : ℕ) (segs : List IndexSegment) (seg : IndexSegment)
    → (ls : List Str) → IsSegment seg
    → indexes_loop (render_segment seg ++ ls) (current ixs n count segs)
      ≡ indexes_loop ls (current ixs n count (segs ++ cleared seg ∷ []))
unfolding index_step
segment_lines ixs n count segs seg ls valid =
    let flag_line = kv (codes "INDEX_SEGMENT_FLAG") (show_nat seg.attrs) in
    let st = pending ixs n count segs seg.field_num seg.descending in
    let after_field =
      line_if seg.descending (codes "INDEX_SEGMENT_DIRECTION DESCENDING") ++ flag_line ∷ ls in
    ap
      (λ l.
        indexes_loop (kv (codes "INDEX_SEGMENT_FIELD") (show_nat seg.field_num) ∷ l)
          (current ixs n count segs))
      (append_assoc (line_if seg.descending (codes "INDEX_SEGMENT_DIRECTION DESCENDING"))
        (flag_line ∷ []) ls)
    ∙ index_line-kv (codes "INDEX_SEGMENT_FIELD") (show_nat seg.field_num) after_field
        (current ixs n count segs) (refl, refl) (show_nat-IsWord seg.field_num)
    ∙ ap (λ o. indexes_loop after_field (clear_pending o (current ixs n count segs)))
        (parse_unsigned-show_nat u32_max seg.field_num valid.field_num)
    ∙ direction_line ixs n count segs seg.field_num seg.descending (flag_line ∷ ls)
    ∙ index_line-kv (codes "INDEX_SEGMENT_FLAG") (show_nat seg.attrs) ls st (refl, refl)
        (show_nat-IsWord seg.attrs)
    ∙ ap
        (λ o.
          let flag = unwrap_or o (negsuc 0) in
          indexes_loop ls (
            clear_pending none
              (record st { cur_segs = segs ++ segment_for (some seg.field_num) flag st })))
        (parse_i32-show_nat seg.attrs (omega (arith, valid.attrs)))
    ∙ ap (λ l. indexes_loop ls (current ixs n count (segs ++ l)))
        (kept_segment st seg.field_num seg.attrs valid.some_field valid.attrs)

pub all_segment_lines :
    (ixs : List IntIndex) (n count : ℕ) (segs more_segs : List IndexSegment) (ls : List Str)
    → All IsSegment more_segs
    → indexes_loop (render_segments more_segs ++ ls) (current ixs n count segs)
      ≡ indexes_loop ls (current ixs n count (segs ++ map cleared more_segs))
all_segment_lines ixs n count segs [] ls valid =
    ap (λ l. indexes_loop ls (current ixs n count l)) (sym (append-nil segs))
all_segment_lines ixs n count segs (seg ∷ more_segs) ls valid =
    ap (λ l. indexes_loop l (current ixs n count segs))
      (append_assoc (render_segment seg) (render_segments more_segs) ls)
    ∙ segment_lines ixs n count segs seg (render_segments more_segs ++ ls) valid.0
    ∙ all_segment_lines ixs n count (segs ++ cleared seg ∷ []) more_segs ls valid.1
    ∙ ap (λ l. indexes_loop ls (current ixs n count l))
        (append_assoc segs (cleared seg ∷ []) (map cleared more_segs))
