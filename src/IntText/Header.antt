-- ===== src/IntText/Header.antt =====
-- export.rs: the lines of the header.
use wx_btrieve_sql_driver.Base.{
  All, Bool, List, Option, Str, [], codes, is_empty, ltb, none, not, refl, show_nat, some, trim,
  trim_end, ℕ, ◌++◌, ◌∷◌, ◌≡◌,
}
use wx_btrieve_sql_driver.Importer.Schema.{IntFile}
use wx_btrieve_sql_driver.IntText.Entries.{IsKey, IsValue, OneLine}
use wx_btrieve_sql_driver.IntText.Lines.{field_entry, index_entry}
use wx_btrieve_sql_driver.IntText.Parse.{FieldState, IndexState, field_step, index_step}
use wx_btrieve_sql_driver.IntText.Render.{kv, line_if, line_some, render_header}
use wx_btrieve_sql_driver.IntText.Rendered.{digits-IsValue}
use wx_btrieve_sql_driver.IntText.Skipped.{All-app, All-line_if, HeaderLine, HeaderLine-of}

abbrev pub OrEmpty : Str → Type 0
OrEmpty [] = Unit
OrEmpty (c ∷ s) = IsValue (c ∷ s)

-- A table whose names its header can hold.
pub record HasNames (f : IntFile) (server : Str) : Type 0 where
  pub server_name : OrEmpty server
  pub db_name : OrEmpty f.db_name
  pub table_name : IsValue f.table_name
  pub schema_name : OrEmpty f.schema_name

-- Lines that are all passed over.
pub record HeaderLines (ls : List Str) : Type 0 where
  pub each : All HeaderLine ls

infixl 5 ◌and◌
◌and◌ : {xs ys : List Str} → HeaderLines xs → HeaderLines ys → HeaderLines (xs ++ ys)
◌and◌ {xs = xs} {ys = ys} a b = record { each = All-app HeaderLine xs ys a.each b.each }

line_unless_empty :
    (l : Str) (v : Str)
    → (IsValue v → HeaderLine l)
    → OrEmpty v
    → HeaderLines (line_if (not (is_empty v)) l)
line_unless_empty l [] h val = record { each = tt }
line_unless_empty l (c ∷ v) h val = record { each = (h val, tt) }

driver_line : HeaderLine (codes "DRIVER_NAME SQL_BTR")
unfolding field_entry index_entry field_step index_step trim trim_end
driver_line = record { one_line = refl; by_fields = λ st. refl; by_indexes = λ st. refl }

null_line : HeaderLine (codes "IGNORE_NULL_VALUES 1")
unfolding field_entry index_entry field_step index_step trim trim_end
null_line = record { one_line = refl; by_fields = λ st. refl; by_indexes = λ st. refl }

trim_line : HeaderLine (codes "TRIM_STRING_FIELDS 1")
unfolding field_entry index_entry field_step index_step trim trim_end
trim_line = record { one_line = refl; by_fields = λ st. refl; by_indexes = λ st. refl }

oem_line : HeaderLine (codes "TRANSLATE_OEM_TO_ANSI 1")
unfolding field_entry index_entry field_step index_step trim trim_end
oem_line = record { one_line = refl; by_fields = λ st. refl; by_indexes = λ st. refl }

cache_line : HeaderLine (codes "LOCAL_CACHE YES")
unfolding field_entry index_entry field_step index_step trim trim_end
cache_line = record { one_line = refl; by_fields = λ st. refl; by_indexes = λ st. refl }

empty_line : HeaderLine []
unfolding field_entry index_entry trim trim_end
empty_line = record { one_line = refl; by_fields = λ st. refl; by_indexes = λ st. refl }

schema_line : (v : Str) → OrEmpty v → HeaderLine (kv (codes "SCHEMA_NAME") v)
unfolding field_entry index_entry field_step index_step trim trim_end
schema_line [] val = record { one_line = refl; by_fields = λ st. refl; by_indexes = λ st. refl }
schema_line (c ∷ v) val =
    HeaderLine-of (codes "SCHEMA_NAME") (c ∷ v) (refl, refl) refl val (λ st x. refl) (λ st x. refl)

flag_line : (b : Bool) (l : Str) → HeaderLine l → HeaderLines (line_if b l)
flag_line b l h = record { each = All-line_if HeaderLine b l h }

number_line :
    (k : Str) (n : ℕ)
    → IsKey k
    → OneLine k
    → ((st : FieldState) (x : Str) → field_step st k x ≡ st)
    → ((st : IndexState) (x : Str) → index_step st k x ≡ st)
    → HeaderLine (kv k (show_nat n))
number_line k n key one hf hi = HeaderLine-of k (show_nat n) key one (digits-IsValue n) hf hi

primary_line :
    (i : Option ℕ) → HeaderLines (line_some i (λ n. kv (codes "PRIMARY_INDEX") (show_nat n)))
unfolding field_step index_step
primary_line none = record { each = tt }
primary_line (some n) = record {
  each =
      (number_line (codes "PRIMARY_INDEX") n (refl, refl) refl (λ st x. refl) (λ st x. refl), tt);
}

name_line :
    (k v : Str)
    → IsKey k
    → OneLine k
    → ((st : FieldState) (x : Str) → field_step st k x ≡ st)
    → ((st : IndexState) (x : Str) → index_step st k x ≡ st)
    → OrEmpty v
    → HeaderLines (line_if (not (is_empty v)) (kv k v))
name_line k v key one hf hi =
    line_unless_empty (kv k v) v (λ val. HeaderLine-of k v key one val hf hi)

-- The lines from PAGE_SIZE on.
optional_lines :
    (f : IntFile)
    → HeaderLines (
        line_if (ltb 0 f.page_size) (kv (codes "PAGE_SIZE") (show_nat f.page_size))
        ++ line_if (ltb 0 f.file_flags) (kv (codes "FILE_FLAGS") (show_nat f.file_flags))
        ++ line_if f.ignore_null_values (codes "IGNORE_NULL_VALUES 1")
        ++ line_if f.trim_string_fields (codes "TRIM_STRING_FIELDS 1")
        ++ line_if f.translate_oem_to_ansi (codes "TRANSLATE_OEM_TO_ANSI 1")
        ++ line_if f.local_cache (codes "LOCAL_CACHE YES")
        ++ line_some f.primary_index (λ i. kv (codes "PRIMARY_INDEX") (show_nat i))
        ++ [] ∷ [])
unfolding field_step index_step
optional_lines f =
    let page = kv (codes "PAGE_SIZE") (show_nat f.page_size) in
    let flags = kv (codes "FILE_FLAGS") (show_nat f.file_flags) in
    let a1 = flag_line (ltb 0 f.page_size) page (
      number_line (codes "PAGE_SIZE") f.page_size (refl, refl) refl (λ st x. refl)
        (λ st x. refl)) in
    let a2 = flag_line (ltb 0 f.file_flags) flags (
      number_line (codes "FILE_FLAGS") f.file_flags (refl, refl) refl (λ st x. refl)
        (λ st x. refl)) in
    let a3 = flag_line f.ignore_null_values (codes "IGNORE_NULL_VALUES 1") null_line in
    let a4 = flag_line f.trim_string_fields (codes "TRIM_STRING_FIELDS 1") trim_line in
    let a5 = flag_line f.translate_oem_to_ansi (codes "TRANSLATE_OEM_TO_ANSI 1") oem_line in
    let a6 = flag_line f.local_cache (codes "LOCAL_CACHE YES") cache_line in
    (a1 and a2 and a3 and a4 and a5 and a6 and primary_line f.primary_index)
    and record { each = (empty_line, tt) }

-- Every line of the header is passed over by both loops.
pub render_header-HeaderLine :
    (f : IntFile) (server : Str) → HasNames f server → HeaderLines (render_header f server)
unfolding field_step index_step
render_header-HeaderLine f server names =
    let a1 =
      line_unless_empty (codes "DRIVER_NAME SQL_BTR") server (λ val. driver_line)
        names.server_name in
    let a2 =
      name_line (codes "SERVER_NAME") server (refl, refl) refl (λ st x. refl) (λ st x. refl)
        names.server_name in
    let a3 =
      name_line (codes "DATABASE_SPACE_NAME") f.db_name (refl, refl) refl (λ st x. refl)
        (λ st x. refl) names.db_name in
    let rest = optional_lines f in
    (a1 and a2 and a3) and record {
      each = (
        HeaderLine-of (codes "TABLE_NAME") f.table_name (refl, refl) refl names.table_name
            (λ st x. refl) (λ st x. refl),
        (
          schema_line f.schema_name names.schema_name,
          (
            number_line (codes "LOGICAL_RECORD_LENGTH") f.record_length (refl, refl) refl
                (λ st x. refl) (λ st x. refl),
            rest.each,
          ),
        ),
      );
    }
