-- ===== src/IntText/Skipped.antt =====
-- int.rs and export.rs: the lines that a loop passes over.
use wx_btrieve_sql_driver.Base.{
  All, Bool, List, Str, [], all, ap, arith, codes, false, join, not, refl, trim_start, true, ◌++◌,
  ◌==◌, ◌∙◌, ◌∷◌, ◌≡◌,
}
use wx_btrieve_sql_driver.IntText.Entries.{IsKey, IsValue, OneLine, entry_of-kv}
use wx_btrieve_sql_driver.IntText.Lines.{field_entry, index_entry, words}
use wx_btrieve_sql_driver.IntText.Parse.{
  FieldState, IndexState, field_line, field_step, fields_loop, index_line, index_step, indexes_loop,
}
use wx_btrieve_sql_driver.IntText.Render.{kv, line_if, render_all}
use wx_btrieve_sql_driver.Sql.KeyWhere.Formula.{render}

-- A line that the loop over the fields, or that over the indexes, passes over.
abbrev pub SkipsFields : Str → Type 0
SkipsFields l = (st : FieldState) → field_line st (field_entry l) ≡ st

abbrev pub SkipsIndexes : Str → Type 0
SkipsIndexes l = (st : IndexState) → index_line st (index_entry l) ≡ st

pub record FieldLine (l : Str) : Type 0 where
  pub one_line : OneLine l
  pub skipped : SkipsIndexes l

pub record IndexLine (l : Str) : Type 0 where
  pub one_line : OneLine l
  pub skipped : SkipsFields l

pub record HeaderLine (l : Str) : Type 0 where
  pub one_line : OneLine l
  pub by_fields : SkipsFields l
  pub by_indexes : SkipsIndexes l

OneLine-kv : (k v : Str) → OneLine k → OneLine v → OneLine (kv k v)
OneLine-kv [] v hk hv = hv
OneLine-kv (c ∷ k) v hk hv =
    let here : (c == 10) ≡ false = ground arith in
    let behind : all (λ d. not (d == 10)) k ≡ true = ground arith in
    rw here (OneLine-kv k v behind hv)

pub SkipsFields-kv :
    (k v : Str)
    → IsKey k
    → IsValue v
    → ((st : FieldState) (x : Str) → field_step st k x ≡ st)
    → SkipsFields (kv k v)
unfolding field_entry
SkipsFields-kv k v key val h st =
    ap (field_line st) (entry_of-kv trim_start k v key val) ∙ h st (trim_start (32 ∷ v))

pub SkipsIndexes-kv :
    (k v : Str)
    → IsKey k
    → IsValue v
    → ((st : IndexState) (x : Str) → index_step st k x ≡ st)
    → SkipsIndexes (kv k v)
unfolding index_entry
SkipsIndexes-kv k v key val h st =
    let joined : Str → Str = λ rest. join (codes " ") (words rest) in
    ap (index_line st) (entry_of-kv joined k v key val) ∙ h st (joined (32 ∷ v))

pub FieldLine-of :
    (k v : Str)
    → IsKey k
    → OneLine k
    → IsValue v
    → ((st : IndexState) (x : Str) → index_step st k x ≡ st)
    → FieldLine (kv k v)
FieldLine-of k v key one val h = record {
  one_line = OneLine-kv k v one val.one_line;
  skipped = SkipsIndexes-kv k v key val h;
}

pub IndexLine-of :
    (k v : Str)
    → IsKey k
    → OneLine k
    → IsValue v
    → ((st : FieldState) (x : Str) → field_step st k x ≡ st)
    → IndexLine (kv k v)
IndexLine-of k v key one val h = record {
  one_line = OneLine-kv k v one val.one_line;
  skipped = SkipsFields-kv k v key val h;
}

pub HeaderLine-of :
    (k v : Str)
    → IsKey k
    → OneLine k
    → IsValue v
    → ((st : FieldState) (x : Str) → field_step st k x ≡ st)
    → ((st : IndexState) (x : Str) → index_step st k x ≡ st)
    → HeaderLine (kv k v)
HeaderLine-of k v key one val hf hi = record {
  one_line = OneLine-kv k v one val.one_line;
  by_fields = SkipsFields-kv k v key val hf;
  by_indexes = SkipsIndexes-kv k v key val hi;
}

module _ (P : Str → Type 0) where
  pub All-app : (xs ys : List Str) → All P xs → All P ys → All P (xs ++ ys)
  All-app [] ys a b = b
  All-app (x ∷ xs) ys a b = (a.0, All-app xs ys a.1 b)

  pub All-line_if : (b : Bool) (l : Str) → P l → All P (line_if b l)
  All-line_if true l h = (h, tt)
  All-line_if false l h = tt

  pub All-render_all :
      {A : Type 0} (Q : A → Type 0) (render : A → List Str) (xs : List A)
      → ((x : A) → Q x → All P (render x))
      → All Q xs
      → All P (render_all render xs)
  All-render_all Q render [] h a = tt
  All-render_all Q render (x ∷ xs) h a =
      All-app (render x) (render_all render xs) (h x a.0) (All-render_all Q render xs h a.1)

pub All-weaken :
    (P Q : Str → Type 0) (xs : List Str) → ((x : Str) → P x → Q x) → All P xs → All Q xs
All-weaken P Q [] h a = tt
All-weaken P Q (x ∷ xs) h a = (h x a.0, All-weaken P Q xs h a.1)

pub fields_loop-skips :
    (ls rest : List Str) (st : FieldState)
    → All SkipsFields ls
    → fields_loop (ls ++ rest) st ≡ fields_loop rest st
fields_loop-skips [] rest st a = refl
fields_loop-skips (l ∷ ls) rest st a =
    ap (fields_loop (ls ++ rest)) (a.0 st) ∙ fields_loop-skips ls rest st a.1

pub indexes_loop-skips :
    (ls rest : List Str) (st : IndexState)
    → All SkipsIndexes ls
    → indexes_loop (ls ++ rest) st ≡ indexes_loop rest st
indexes_loop-skips [] rest st a = refl
indexes_loop-skips (l ∷ ls) rest st a =
    ap (indexes_loop (ls ++ rest)) (a.0 st) ∙ indexes_loop-skips ls rest st a.1
