-- ===== src/IntText/Rendered.antt =====
-- export.rs: the lines of a field and of an index.
use wx_btrieve_sql_driver.Base.{
  All, List, Option, Str, [], codes, length, none, refl, show_nat, some, trim, trim_end, ℕ, ◌++◌,
  ◌∷◌,
}
use wx_btrieve_sql_driver.Importer.Schema.{IndexSegment, IntIndex}
use wx_btrieve_sql_driver.IntText.Entries.{IsValue, word-IsValue}
use wx_btrieve_sql_driver.IntText.FieldLines.{IsField, OptionAll}
use wx_btrieve_sql_driver.IntText.Lines.{field_entry, index_entry}
use wx_btrieve_sql_driver.IntText.Numbers.{show_i32-IsWord, show_nat-IsWord}
use wx_btrieve_sql_driver.IntText.Parse.{field_step, index_step}
use wx_btrieve_sql_driver.IntText.Render.{
  kv, line_if, line_some, render_field, render_index, render_segment, render_segments, show_i32,
}
use wx_btrieve_sql_driver.IntText.Skipped.{
  All-app, All-line_if, FieldLine, IndexLine, FieldLine-of, IndexLine-of,
}
use wx_btrieve_sql_driver.Schema.{IntField}

pub digits-IsValue : (n : ℕ) → IsValue (show_nat n)
digits-IsValue n = word-IsValue (show_nat n) (show_nat-IsWord n)

empty_FieldLine : FieldLine []
unfolding index_entry trim trim_end
empty_FieldLine = record { one_line = refl; skipped = λ st. refl }

default_lines :
    (d : Option Str)
    → OptionAll IsValue d
    → All FieldLine (line_some d (λ s. kv (codes "FIELD_DEFAULT_VALUE") s))
unfolding index_step
default_lines none h = tt
default_lines (some s) h =
    (FieldLine-of (codes "FIELD_DEFAULT_VALUE") s (refl, refl) refl h (λ st x. refl), tt)

index_number_lines :
    (i : Option ℕ) → All FieldLine (line_some i (λ n. kv (codes "FIELD_INDEX") (show_nat n)))
unfolding index_step
index_number_lines none = tt
index_number_lines (some n) = (
  FieldLine-of (codes "FIELD_INDEX") (show_nat n) (refl, refl) refl (digits-IsValue n)
      (λ st x. refl),
  tt,
)

pub render_field-FieldLine : (f : IntField) → IsField f → All FieldLine (render_field f)
unfolding index_step
render_field-FieldLine f valid =
    let default = line_some f.default_value (λ d. kv (codes "FIELD_DEFAULT_VALUE") d) in
    let index = line_some f.field_index (λ i. kv (codes "FIELD_INDEX") (show_nat i)) in
    (
      FieldLine-of (codes "FIELD_NUMBER") (show_nat f.num) (refl, refl) refl (digits-IsValue f.num)
          (λ st x. refl),
      (
        FieldLine-of (codes "FIELD_NAME") f.name (refl, refl) refl valid.name (λ st x. refl),
        (
          FieldLine-of (codes "FIELD_NATIVE_TYPE") (show_i32 f.native_type) (refl, refl) refl
              (word-IsValue (show_i32 f.native_type) (show_i32-IsWord f.native_type))
              (λ st x. refl),
          (
            FieldLine-of (codes "FIELD_NATIVE_LENGTH") (show_nat f.length) (refl, refl) refl
                (digits-IsValue f.length) (λ st x. refl),
            (
              FieldLine-of (codes "FIELD_NATIVE_OFFSET") (show_nat f.offset) (refl, refl) refl
                  (digits-IsValue f.offset) (λ st x. refl),
              All-app FieldLine (index ++ default) ([] ∷ [])
                  (All-app FieldLine index default (index_number_lines f.field_index)
                    (default_lines f.default_value valid.default_value))
                  (empty_FieldLine, tt),
            ),
          ),
        ),
      ),
    )

closed_IndexLines : All IndexLine (
    codes "INDEX_SEGMENT_DIRECTION DESCENDING"
    ∷ codes "INDEX_SEGMENT_FIELD 0"
    ∷ codes "INDEX_SEGMENT_FLAG -1"
    ∷ []
    ∷ [])
unfolding field_entry field_step trim trim_end
closed_IndexLines = (
  record { one_line = refl; skipped = λ st. refl },
  (
    record { one_line = refl; skipped = λ st. refl },
    (
      record { one_line = refl; skipped = λ st. refl },
      (record { one_line = refl; skipped = λ st. refl }, tt),
    ),
  ),
)

segment-IndexLine : (seg : IndexSegment) → All IndexLine (render_segment seg)
unfolding field_step
segment-IndexLine seg =
    let direction = line_if seg.descending (codes "INDEX_SEGMENT_DIRECTION DESCENDING") in
    let flag = kv (codes "INDEX_SEGMENT_FLAG") (show_nat seg.attrs) ∷ [] in
    (
      IndexLine-of (codes "INDEX_SEGMENT_FIELD") (show_nat seg.field_num) (refl, refl) refl
          (digits-IsValue seg.field_num) (λ st x. refl),
      All-app IndexLine direction flag
          (All-line_if IndexLine seg.descending (codes "INDEX_SEGMENT_DIRECTION DESCENDING")
            closed_IndexLines.0)
          (
            IndexLine-of (codes "INDEX_SEGMENT_FLAG") (show_nat seg.attrs) (refl, refl) refl
                (digits-IsValue seg.attrs) (λ st x. refl),
            tt,
          ),
    )

segments-IndexLine : (segs : List IndexSegment) → All IndexLine (render_segments segs)
segments-IndexLine [] = tt
segments-IndexLine (seg ∷ segs) =
    All-app IndexLine (render_segment seg) (render_segments segs) (segment-IndexLine seg)
      (segments-IndexLine segs)

pub render_index-IndexLine : (ix : IntIndex) → All IndexLine (render_index ix)
unfolding field_step
render_index-IndexLine ix =
    let n = length ix.segments in
    (
      IndexLine-of (codes "INDEX_NUMBER") (show_nat ix.num) (refl, refl) refl
          (digits-IsValue ix.num) (λ st x. refl),
      (
        IndexLine-of (codes "INDEX_NUMBER_SEGMENTS") (show_nat n) (refl, refl) refl
            (digits-IsValue n) (λ st x. refl),
        All-app IndexLine (render_segments ix.segments)
            (codes "INDEX_SEGMENT_FIELD 0" ∷ codes "INDEX_SEGMENT_FLAG -1" ∷ [] ∷ [])
            (segments-IndexLine ix.segments) closed_IndexLines.1,
      ),
    )
