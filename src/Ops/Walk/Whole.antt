-- ===== src/Ops/Walk/Whole.antt =====
-- ops/step.rs: the rows of a walk, one after the other.
use wx_btrieve_sql_driver.Base.{
  List, [], ap, get_elem?, keep, lookup, nat_eq, none, refl, some, suc, sym, text_eq, zero, ℕ, ◌∙◌,
  ◌∷◌, ◌≡◌,
}
use wx_btrieve_sql_driver.Ops.Stepping.{repeat, step_in}
use wx_btrieve_sql_driver.Ops.Walk.{Answers, Serves, TableRow, number_of, packed_row}
use wx_btrieve_sql_driver.Ops.Walk.Cursor.{Walking, ends, gives}
use wx_btrieve_sql_driver.Ops.Walk.Order.{is_behind, keep-none}
use wx_btrieve_sql_driver.Schema.{TableMeta}
use wx_btrieve_sql_driver.Sql.Columns.{Dir}
use wx_btrieve_sql_driver.World.{HandleEntry, World}
use wx_btrieve_sql_driver.World.Handles.{posblk_key, write_data}

module _ (dir : Dir) (meta : TableMeta) (rows : List TableRow) (start : World) where
  walks :
      (i n : ℕ) (rest : List TableRow) (w : World) (serves : Serves dir meta rows start)
      → Walking dir meta rows start n rest w
      → Answers dir meta (get_elem? rest i) (repeat i (step_in dir) w)
  walks zero n [] w serves g = (ends dir meta rows start n w serves g).0
  walks zero n (r ∷ rs) w serves g =
      let out = gives dir meta rows start n r rs w serves g g.k refl in
      (out.0, out.1 ∙ ap (λ f. (write_data (packed_row f meta r) w).buffers) (sym g.floats))
  walks (suc i) n [] w serves g =
      walks i n [] (step_in dir w).1 serves (ends dir meta rows start n w serves g).1
  walks (suc i) n (r ∷ rs) w serves g =
      walks i (suc n) rs (step_in dir w).1 serves
        (gives dir meta rows start n r rs w serves g g.k refl).2

-- For a table whose record number is none of its fields, on a handle at the start of a walk with
-- nothing cached, when the backend answers the query for the first rows behind a record number, in
-- the order of the walk, from the rows of a table in that order: for every `i` the step after `i`
-- steps succeeds and writes the packed fields of the `i`-th row to the caller when the table has
-- one, and reports status 9 when it has not, whether it is served from the cache or by a query.
pub step_in-Answers :
    (dir : Dir) (rows : List TableRow) (w : World) (h : HandleEntry) (i : ℕ)
    → lookup (posblk_key w) w.handles ≡ some h
    → h.step_cache ≡ []
    → h.step_cache_dir ≡ dir
    → h.step_last_recnum ≡ none
    → Serves dir h.meta rows w
    → Answers dir h.meta (get_elem? rows i) (repeat i (step_in dir) w)
step_in-Answers dir rows w h i open_at empty turned fresh serves =
    walks dir h.meta rows w i 0 rows w serves (record {
      h = h;
      open_at = open_at;
      table = refl;
      turned = turned;
      client = refl;
      settings = refl;
      floats = refl;
      dropped = refl;
      behind =
          ap (λ at. keep (is_behind number_of dir at) rows) fresh ∙ keep-none number_of dir rows;
      k = 0;
      cached = empty;
    })
