-- ===== src/Tests/Walks.antt =====
-- A walk of a small table by a backend that answers from its rows.
use wx_btrieve_sql_driver.Base.{
  List, Option, [], codes, false, get_elem?, keep, lookup, map, nat_eq, none, parse_i64, refl, some,
  take, text_eq, trim, trim_end, ℤ, ◌∷◌, ◌≡◌,
}
use wx_btrieve_sql_driver.Ops.Stepping.{repeat, step_in}
use wx_btrieve_sql_driver.Ops.Walk.{Answers, Serves, TableRow, answer_at, cells, number_of}
use wx_btrieve_sql_driver.Ops.Walk.Order.{is_behind}
use wx_btrieve_sql_driver.Ops.Walk.Whole.{step_in-Answers}
use wx_btrieve_sql_driver.Sql.Columns.{forward}
use wx_btrieve_sql_driver.SqlParam.{SqlValue, i64}
use wx_btrieve_sql_driver.Tests.Fixtures.{sample_columns, sample_handle, sample_meta, sample_world}
use wx_btrieve_sql_driver.World.{Client, HandleEntry, Request, World, done}
use wx_btrieve_sql_driver.World.Handles.{posblk_key}

abbrev two_rows : List TableRow
two_rows = (codes "11", sample_columns) ∷ (codes "12", sample_columns) ∷ []

-- The number that a step's query names, by its parameters.
abbrev number_in : List SqlValue → Option ℤ
number_in [] = none
number_in (i64 v ∷ rest) = some v
number_in (other ∷ rest) = none

abbrev table_client : Client
table_client = record {
  on_execute = λ _ _ _. done tt;
  on_fetch = λ sent sql params n limit.
      done
        (map cells (take limit (keep (is_behind number_of forward (number_in params)) two_rows)));
}

abbrev fresh_handle : HandleEntry
fresh_handle = record sample_handle { step_cache = []; step_last_recnum = none }

abbrev at_start : World
at_start = record (sample_world table_client false) { handles = (7, fresh_handle) ∷ [] }

two_rows-answers :
    (sent : List Request) (at : Option ℤ)
    → answer_at forward at_start table_client at_start.settings sample_meta sent at
      ≡ done (map cells (take 256 (keep (is_behind number_of forward at) two_rows)))
two_rows-answers sent none = refl
two_rows-answers sent (some rn) = refl

two_rows-Serves : Serves forward sample_meta two_rows at_start
unfolding parse_i64 trim trim_end
two_rows-Serves = record {
  apart = refl;
  ordered = ((refl, tt), (tt, tt));
  answers = two_rows-answers;
}

-- The second step is served from the cache, and the third finds no row.
walk_example :
    Answers forward sample_meta (get_elem? two_rows 1) (repeat 1 (step_in forward) at_start)
unfolding lookup posblk_key
walk_example =
    step_in-Answers forward two_rows at_start fresh_handle 1 refl refl refl refl two_rows-Serves
