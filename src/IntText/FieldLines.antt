-- ===== src/IntText/FieldLines.antt =====
-- int.rs and export.rs: the fields of a table, written and read.
use mathlib.Core.List.{append_assoc, append-nil}
use wx_btrieve_sql_driver.Base.{
  All, List, Option, Str, [], ap, codes, if◌then◌else◌, is_empty, none, refl, show_nat, some, sym,
  trim, trim_end, trim_start, unwrap_or, ℕ, ◌++◌, ◌<◌, ◌^◌, ◌∙◌, ◌∷◌, ◌≡◌, ◌≤◌,
}
use wx_btrieve_sql_driver.IntText.Entries.{
  IsKey, IsValue, entry_of-kv, trim_start-space, word-IsValue,
}
use wx_btrieve_sql_driver.IntText.Lines.{field_entry}
use wx_btrieve_sql_driver.IntText.Numbers.{
  parse_i32-show_i32, parse_unsigned-show_nat, show_i32-IsWord, show_nat-IsWord,
}
use wx_btrieve_sql_driver.IntText.Parse.{
  FieldState, field_line, field_step, fields_loop, first_field_state, flush_field, u32_max,
}
use wx_btrieve_sql_driver.IntText.Render.{kv, line_some, render_all, render_field, show_i32}
use wx_btrieve_sql_driver.Schema.{IntField}

abbrev pub OptionAll : {A : Type 0} → (A → Type 0) → Option A → Type 0
OptionAll P none = Unit
OptionAll P (some a) = P a

-- A field that its lines can hold: numbers of 32 bits, and a name and a default that are neither
-- empty nor start or end by a space, without line feeds.
pub record IsField (f : IntField) : Type 0 where
  pub num : f.num ≤ u32_max
  pub name : IsValue f.name
  pub native_type : f.native_type < 2 ^ 32
  pub length_fits : f.length ≤ u32_max
  pub offset : f.offset ≤ u32_max
  pub field_index : OptionAll (λ i. i ≤ u32_max) f.field_index
  pub default_value : OptionAll IsValue f.default_value

-- A line with a key and a value is one step.
field_line-kv :
    (k v : Str) (ls : List Str) (st : FieldState)
    → IsKey k
    → IsValue v
    → fields_loop (kv k v ∷ ls) st ≡ fields_loop ls (field_step st k v)
unfolding field_entry
field_line-kv k v ls st key val =
    ap (λ e. fields_loop ls (field_line st e))
      (entry_of-kv trim_start k v key val ∙ ap (λ x. some (k, x)) (trim_start-space v val))

-- The state of the loop behind the first lines of a field.
abbrev begun : FieldState → IntField → Option ℕ → Option Str → FieldState
begun st f i d = record {
  fields = flush_field st;
  cur_num = some f.num;
  cur_name = f.name;
  cur_type = f.native_type;
  cur_len = f.length;
  cur_off = f.offset;
  cur_fidx = i;
  cur_default = d;
}

abbrev last_lines : Option ℕ → Option Str → List Str
last_lines i d =
    line_some i (λ n. kv (codes "FIELD_INDEX") (show_nat n))
    ++ line_some d (λ s. kv (codes "FIELD_DEFAULT_VALUE") s)
    ++ [] ∷ []

default_line :
    (st : FieldState) (f : IntField) (i : Option ℕ) (d : Option Str) (ls : List Str)
    → OptionAll IsValue d
    → fields_loop (last_lines none d ++ ls) (begun st f i none) ≡ fields_loop ls (begun st f i d)
unfolding field_entry trim trim_end field_step
default_line st f i none ls h = refl
default_line st f i (some []) ls h = absurd h.starts
default_line st f i (some (c ∷ s)) ls h =
    field_line-kv (codes "FIELD_DEFAULT_VALUE") (c ∷ s) ([] ∷ ls) (begun st f i none) (refl, refl) h

index_and_default :
    (st : FieldState) (f : IntField) (i : Option ℕ) (d : Option Str) (ls : List Str)
    → OptionAll (λ n. n ≤ u32_max) i
    → OptionAll IsValue d
    → fields_loop (last_lines i d ++ ls) (begun st f none none) ≡ fields_loop ls (begun st f i d)
unfolding field_step
index_and_default st f none d ls b h = default_line st f none d ls h
index_and_default st f (some n) d ls b h =
    field_line-kv (codes "FIELD_INDEX") (show_nat n) (last_lines none d ++ ls)
      (begun st f none none) (refl, refl) (word-IsValue (show_nat n) (show_nat-IsWord n))
    ∙ ap (λ o. fields_loop (last_lines none d ++ ls) (begun st f o none))
        (parse_unsigned-show_nat u32_max n b)
    ∙ default_line st f (some n) d ls h

number-IsValue : (n : ℕ) → IsValue (show_nat n)
number-IsValue n = word-IsValue (show_nat n) (show_nat-IsWord n)

-- The lines of a field flush the one before and leave this one current.
field_lines :
    (f : IntField) (ls : List Str) (st : FieldState)
    → IsField f
    → fields_loop (render_field f ++ ls) st
      ≡ fields_loop ls (begun st f f.field_index f.default_value)
unfolding field_step
field_lines f ls st valid =
    let end = last_lines f.field_index f.default_value ++ ls in
    let num_of = parse_unsigned-show_nat u32_max f.num valid.num in
    let len_of = parse_unsigned-show_nat u32_max f.length valid.length_fits in
    let off_of = parse_unsigned-show_nat u32_max f.offset valid.offset in
    let type_of = parse_i32-show_i32 f.native_type valid.native_type in
    let st1 = record first_field_state { fields = flush_field st; cur_num = some f.num } in
    let st2 = record st1 { cur_name = f.name } in
    let st3 = record st2 { cur_type = f.native_type } in
    let st4 = record st3 { cur_len = f.length } in
    let after4 = kv (codes "FIELD_NATIVE_OFFSET") (show_nat f.offset) ∷ end in
    let after3 = kv (codes "FIELD_NATIVE_LENGTH") (show_nat f.length) ∷ after4 in
    let after2 = kv (codes "FIELD_NATIVE_TYPE") (show_i32 f.native_type) ∷ after3 in
    let after1 = kv (codes "FIELD_NAME") f.name ∷ after2 in
    field_line-kv (codes "FIELD_NUMBER") (show_nat f.num) after1 st (refl, refl)
      (number-IsValue f.num)
    ∙ ap
        (λ o.
          fields_loop after1 (record first_field_state { fields = flush_field st; cur_num = o }))
        num_of
    ∙ field_line-kv (codes "FIELD_NAME") f.name after2 st1 (refl, refl) valid.name
    ∙ field_line-kv (codes "FIELD_NATIVE_TYPE") (show_i32 f.native_type) after3 st2 (refl, refl)
        (word-IsValue (show_i32 f.native_type) (show_i32-IsWord f.native_type))
    ∙ ap (λ t. fields_loop after3 (record st2 { cur_type = t })) type_of
    ∙ field_line-kv (codes "FIELD_NATIVE_LENGTH") (show_nat f.length) after4 st3 (refl, refl)
        (number-IsValue f.length)
    ∙ ap (λ o. fields_loop after4 (record st3 { cur_len = unwrap_or o 0 })) len_of
    ∙ field_line-kv (codes "FIELD_NATIVE_OFFSET") (show_nat f.offset) end st4 (refl, refl)
        (number-IsValue f.offset)
    ∙ ap (λ o. fields_loop end (record st4 { cur_off = unwrap_or o 0 })) off_of
    ∙ index_and_default st f f.field_index f.default_value ls valid.field_index valid.default_value

flush_begun :
    (st : FieldState) (f : IntField)
    → IsValue f.name
    → flush_field (begun st f f.field_index f.default_value) ≡ flush_field st ++ f ∷ []
flush_begun st f val = flushed f.name val
  where
    flushed :
        (name : Str)
        → IsValue name
        → (if is_empty name then flush_field st else flush_field st ++ f ∷ [])
          ≡ flush_field st ++ f ∷ []
    flushed [] v = absurd v.starts
    flushed (c ∷ s) v = refl

-- The lines of all fields, with what follows them.
pub all_field_lines :
    (fs : List IntField) (ls : List Str) (st : FieldState)
    → All IsField fs
    → ((s : FieldState) → fields_loop ls s ≡ s)
    → flush_field (fields_loop (render_all render_field fs ++ ls) st) ≡ flush_field st ++ fs
all_field_lines [] ls st valid tail_kept =
    ap flush_field (tail_kept st) ∙ sym (append-nil (flush_field st))
all_field_lines (f ∷ fs) ls st valid tail_kept =
    ap (λ l. flush_field (fields_loop l st))
      (append_assoc (render_field f) (render_all render_field fs) ls)
    ∙ ap flush_field (field_lines f (render_all render_field fs ++ ls) st valid.0)
    ∙ all_field_lines fs ls (begun st f f.field_index f.default_value) valid.1 tail_kept
    ∙ ap (λ l. l ++ fs) (flush_begun st f valid.0.name)
    ∙ append_assoc (flush_field st) (f ∷ []) fs
