-- ===== src/Ops/Walk.antt =====
-- ops/step.rs: a whole walk of a file by Step Next or Previous, as the table of its rows.
pub mod Order
pub mod Cursor
pub mod Whole
use mathlib.Core.Path.{subst}
use mathlib.Core.List.{append_assoc, append-nil}
use wx_btrieve_sql_driver.Base.{
  List, Option, Str, [], ap, codes, false, if◌then◌else◌, keep, length, map, none, show_nat, some,
  take, ℕ, ℤ, ◌++◌, ◌+◌, ◌<◌, ◌∙◌, ◌∷◌, ◌≡◌,
}
use wx_btrieve_sql_driver.Dialect.{
  Backend, mssql, param_marker, postgres, select_with_limit, sqlite,
}
use wx_btrieve_sql_driver.Floats.{Floats}
use wx_btrieve_sql_driver.Ops.Fetch.{
  Names, build_step_select_n_params, names_of, parse_recnum, row_fields,
}
use wx_btrieve_sql_driver.Ops.Step.{step_chunk_size}
use wx_btrieve_sql_driver.Ops.Stepping.{step_in}
use wx_btrieve_sql_driver.Ops.Walk.Order.{Ordered, is_behind}
use wx_btrieve_sql_driver.Record.Pack.{pack_row}
use wx_btrieve_sql_driver.Schema.{TableMeta, recnum_is_field}
use wx_btrieve_sql_driver.Sql.Columns.{Dir, backward, direction, forward, is_forward}
use wx_btrieve_sql_driver.Sql.KeyWhere.{seg_cmp, sql_cmp}
use wx_btrieve_sql_driver.SqlParam.{SqlValue, i64}
use wx_btrieve_sql_driver.Status.{btr_eof}
use wx_btrieve_sql_driver.World.{Client, Outcome, Request, Settings, World, done, err, ok}
use wx_btrieve_sql_driver.World.Handles.{write_data}

-- A row of the backend: the text of its record number, and its other columns.
abbrev pub TableRow : Type 0
TableRow = Str × List Str

abbrev pub number_of : TableRow → ℤ
number_of r = parse_recnum r.0

abbrev pub cells : TableRow → List Str
cells r = r.0 ∷ r.1

-- The fields of a row, packed, whether or not the record number is one of them.
abbrev pub packed_row : Floats → TableMeta → TableRow → List ℕ
packed_row fl meta r = pack_row fl meta.fields (row_fields meta (cells r)) meta.record_length

abbrev pub record_of : Floats → TableMeta → TableRow → ℤ × List ℕ
record_of fl meta r = (number_of r, packed_row fl meta r)

abbrev pub chunk_size : TableMeta → ℕ
chunk_size meta = if meta.local_cache then step_chunk_size else 1

abbrev order_word : Dir → Str
order_word forward = codes " ASC"
order_word backward = codes " DESC"

abbrev behind_sign : Dir → Str
behind_sign forward = codes " > "
behind_sign backward = codes " < "

abbrev first_marker : Backend → Str
first_marker mssql = codes "?"
first_marker postgres = codes "$1"
first_marker sqlite = codes "?"

-- The condition on the record number, and the number that it is compared with.
abbrev behind_text : Names → Dir → Option ℤ → Str
behind_text names dir none = []
behind_text names dir (some rn) =
    codes " WHERE " ++ (names.rc ++ behind_sign dir ++ first_marker names.b)

abbrev number_param : Option ℤ → List SqlValue
number_param none = []
number_param (some rn) = i64 rn ∷ []

-- A query for the first `n` rows, with its condition and its order.
abbrev framed : Backend → ℕ → Str → Str → Str → Str → Str
framed mssql n cols tref condition order =
    codes "SELECT TOP "
    ++ show_nat n
    ++ codes " "
    ++ cols
    ++ codes " FROM "
    ++ tref
    ++ condition
    ++ (codes " ORDER BY " ++ order)
framed postgres n cols tref condition order =
    codes "SELECT "
    ++ cols
    ++ codes " FROM "
    ++ tref
    ++ condition
    ++ (codes " ORDER BY " ++ order)
    ++ (codes " LIMIT " ++ show_nat n)
framed sqlite n cols tref condition order =
    codes "SELECT "
    ++ cols
    ++ codes " FROM "
    ++ tref
    ++ condition
    ++ (codes " ORDER BY " ++ order)
    ++ (codes " LIMIT " ++ show_nat n)

-- The query that asks for the first `n` rows behind a record number, in the order of the walk.
abbrev pub rows_behind : Names → Dir → ℕ → Option ℤ → Str
rows_behind names dir n at =
    framed names.b n names.cols names.tref (behind_text names dir at) (names.rc ++ order_word dir)

-- The backend's answer to that query behind the row numbered `at`.
abbrev pub answer_at :
    Dir
    → World
    → Client
    → Settings
    → TableMeta
    → List Request
    → Option ℤ
    → Outcome (List (List Str))
answer_at dir w c s meta sent at =
    let names = names_of meta (record w { settings = s }) in
    c.on_fetch sent (rows_behind names dir (chunk_size meta) at) (number_param at)
      (length meta.fields + 1) (chunk_size meta)

-- A table whose record number is none of its fields, and a backend that answers the query for the
-- rows behind a number from the table's rows, which are in the walk's order: by the first of them, as
-- many as the query asks for.
pub record Serves (dir : Dir) (meta : TableMeta) (rows : List TableRow) (w : World) : Type 0 where
  pub apart : recnum_is_field meta ≡ false
  pub ordered : Ordered number_of dir rows
  pub answers :
      (sent : List Request) (at : Option ℤ)
      → answer_at dir w w.client w.settings meta sent at
        ≡ done (map cells (take (chunk_size meta) (keep (is_behind number_of dir at) rows)))

-- What a step does at a row that is there, and behind the last.
abbrev pub Answers : Dir → TableMeta → Option TableRow → World → Type 0
Answers dir meta (some r) w =
    ((step_in dir w).0 ≡ ok tt)
    × ((step_in dir w).1.buffers ≡ (write_data (packed_row w.floats meta r) w).buffers)
Answers dir meta none w = (step_in dir w).0 ≡ err btr_eof

framed_whole :
    (b : Backend) (n : ℕ) (cols tref : Str) (o : ℕ) (os : Str)
    → select_with_limit b n cols tref [] (o ∷ os) ≡ framed b n cols tref [] (o ∷ os)
unfolding select_with_limit
framed_whole mssql n cols tref o os = simp (append_assoc, append-nil)
framed_whole postgres n cols tref o os = simp (append_assoc, append-nil)
framed_whole sqlite n cols tref o os = simp (append_assoc, append-nil)

framed_behind :
    (b : Backend) (n : ℕ) (cols tref : Str) (c : ℕ) (cs : Str) (o : ℕ) (os : Str)
    → select_with_limit b n cols tref (c ∷ cs) (o ∷ os)
      ≡ framed b n cols tref (codes " WHERE " ++ c ∷ cs) (o ∷ os)
unfolding select_with_limit
framed_behind mssql n cols tref c cs o os = simp (append_assoc, append-nil)
framed_behind postgres n cols tref c cs o os = simp append_assoc
framed_behind sqlite n cols tref c cs o os = simp append_assoc

order_lem :
    (rc : Str) (dir : Dir) → rc ++ codes " " ++ direction (is_forward dir) ≡ rc ++ order_word dir
order_lem rc forward = simp append_assoc
order_lem rc backward = simp append_assoc

condition_lem :
    (b : Backend) (rc : Str) (dir : Dir)
    → rc ++ codes " " ++ sql_cmp (seg_cmp dir false) ++ codes " " ++ param_marker b 1
      ≡ rc ++ behind_sign dir ++ first_marker b
unfolding param_marker show_nat
condition_lem mssql rc forward = simp append_assoc
condition_lem postgres rc forward = simp append_assoc
condition_lem sqlite rc forward = simp append_assoc
condition_lem mssql rc backward = simp append_assoc
condition_lem postgres rc backward = simp append_assoc
condition_lem sqlite rc backward = simp append_assoc

whole_table :
    (b : Backend) (n : ℕ) (cols tref rc : Str) (dir : Dir)
    → select_with_limit b n cols tref [] (rc ++ codes " " ++ direction (is_forward dir))
      ≡ framed b n cols tref [] (rc ++ order_word dir)
whole_table b n cols tref [] dir =
    framed_whole b n cols tref 32 (direction (is_forward dir))
    ∙ ap (framed b n cols tref []) (order_lem [] dir)
whole_table b n cols tref (r ∷ rs) dir =
    framed_whole b n cols tref r (rs ++ codes " " ++ direction (is_forward dir))
    ∙ ap (framed b n cols tref []) (order_lem (r ∷ rs) dir)

behind_row :
    (b : Backend) (n : ℕ) (cols tref rc : Str) (dir : Dir)
    → select_with_limit b n cols tref
        (rc ++ codes " " ++ sql_cmp (seg_cmp dir false) ++ codes " " ++ param_marker b 1)
        (rc ++ codes " " ++ direction (is_forward dir))
      ≡ framed b n cols tref
          (codes " WHERE " ++ (rc ++ behind_sign dir ++ first_marker b))
          (rc ++ order_word dir)
behind_row b n cols tref [] dir =
    framed_behind b n cols tref 32 (sql_cmp (seg_cmp dir false) ++ codes " " ++ param_marker b 1) 32
      (direction (is_forward dir))
    ∙ (λ i. framed b n cols tref (codes " WHERE " ++ condition_lem b [] dir i) (order_lem [] dir i))
behind_row b n cols tref (r ∷ rs) dir =
    framed_behind b n cols tref r
      (rs ++ codes " " ++ sql_cmp (seg_cmp dir false) ++ codes " " ++ param_marker b 1) r
      (rs ++ codes " " ++ direction (is_forward dir))
    ∙ (λ i.
        framed b n cols tref (codes " WHERE " ++ condition_lem b (r ∷ rs) dir i)
          (order_lem (r ∷ rs) dir i))

-- The query of a step is the one that asks for the rows behind the last.
pub build_step_select_n_params_lem :
    (names : Names) (at : Option ℤ) (dir : Dir) (n : ℕ)
    → build_step_select_n_params names at dir n ≡ (rows_behind names dir n at, number_param at)
unfolding build_step_select_n_params
build_step_select_n_params_lem names none dir n =
    ap (λ q. (q, [])) (whole_table names.b n names.cols names.tref names.rc dir)
build_step_select_n_params_lem names (some rn) dir n =
    ap (λ q. (q, i64 rn ∷ [])) (behind_row names.b n names.cols names.tref names.rc dir)
