-- ===== src/Tests/Queries.antt =====
-- Concrete runs of the predicates, the filters and the quoting.
use Prim.Native.String.{String}
use wx_btrieve_sql_driver.Base.{
  Bool, List, Str, [], arith, codes, false, join, map, pos, refl, some, true, ℕ, ◌++◌, ◌+◌, ◌∷◌,
  ◌≡◌,
}
use wx_btrieve_sql_driver.Client.Discovery.{column_type, discover_fields}
use wx_btrieve_sql_driver.Client.Discovery.Tiling.{Tiles, discover_fields-Tiles, width}
use wx_btrieve_sql_driver.Dialect.{mssql, postgres, quote_ident}
use wx_btrieve_sql_driver.Dialect.Quoting.{read_ident, read_ident-quote_ident}
use wx_btrieve_sql_driver.Sql.Columns.{forward}
use wx_btrieve_sql_driver.Sql.Filter.{
  Connector, TermClause, and_next, build_filter_where, last, or_next, render_group,
}
use wx_btrieve_sql_driver.Sql.Filter.Precedence.{
  build_filter_where-Selects, filter_truth, render_each,
}
use wx_btrieve_sql_driver.Sql.KeyWhere.{
  build_continuation_where_marker, build_key_where, eq, ge, gt, or_sep,
}
use wx_btrieve_sql_driver.Sql.KeyWhere.Formula.{Atom, Formula, Row, any_holds, holds, render, test}
use wx_btrieve_sql_driver.Sql.KeyWhere.Lexicographic.{
  build_continuation_where_marker-Selects, build_key_where-Selects, compare_key, compare_walk,
}
use wx_btrieve_sql_driver.SqlParam.{SqlValue, i64}

abbrev two_columns : List (Str × SqlValue)
two_columns = (codes "[B]", i64 (pos 2)) ∷ []

build_key_where_example :
    (f : Formula) × (build_key_where mssql ((codes "[A]", i64 (pos 1)) ∷ two_columns) ge []
      ≡ render mssql f [])
    × ((row : Row)
        → holds row f ≡ test ge (compare_key row ((codes "[A]", i64 (pos 1)) ∷ two_columns)))
build_key_where_example =
    build_key_where-Selects mssql (codes "[A]", i64 (pos 1)) two_columns ge [] tt

abbrev walked_columns : List (Str × SqlValue × Bool)
walked_columns = (codes "A", i64 (pos 1), true) ∷ (codes "B", i64 (pos 2), false) ∷ []

build_continuation_where_marker_example :
    (f : Formula) × (build_continuation_where_marker postgres walked_columns forward
        (pos 7)
        (codes "R")
        []
      ≡ render postgres f [])
    × ((row : Row)
        → holds row f
          ≡ test gt
              (compare_walk forward row (walked_columns ++ (codes "R", i64 (pos 7), false) ∷ [])))
build_continuation_where_marker_example =
    build_continuation_where_marker-Selects postgres walked_columns forward (pos 7) (codes "R") []

abbrev term : String → ℕ → Connector → TermClause
term c n k = record { col_ref = codes c; cmp = eq; value = i64 (pos n); connector = k }

build_filter_where_example :
    (groups : List (List Atom)) × (build_filter_where mssql
        (term "[A]" 1 and_next ∷ term "[B]" 2 or_next ∷ term "[C]" 3 last ∷ [])
        []
      ≡ (
        join or_sep (map render_group (render_each mssql groups []).0),
        (render_each mssql groups []).1,
      ))
    × ((row : Row)
        → any_holds row groups
          ≡ filter_truth row
              (term "[A]" 1 and_next ∷ term "[B]" 2 or_next ∷ term "[C]" 3 last ∷ []))
build_filter_where_example =
    build_filter_where-Selects mssql (term "[A]" 1 and_next)
      (term "[B]" 2 or_next ∷ term "[C]" 3 last ∷ []) []

quote_ident_example :
    read_ident mssql (quote_ident mssql (codes "a]b") ++ codes " = 1")
    ≡ some (codes "a]b", codes " = 1")
quote_ident_example = read_ident-quote_ident mssql (codes "a]b") (codes " = 1") refl

abbrev listed : List (List Str)
listed =
    (codes "ID" ∷ codes "int" ∷ codes "0" ∷ [])
    ∷ (codes "NAME" ∷ codes "varchar" ∷ codes "20" ∷ [])
    ∷ (codes "MDS_RECNUM" ∷ codes "int" ∷ codes "0" ∷ [])
    ∷ []

discover_fields_example :
    Tiles 1 0 (0 + width listed) (discover_fields listed 1 0).0
    × ((discover_fields listed 1 0).1 ≡ 0 + width listed)
unfolding column_type wx_btrieve_sql_driver.Base.trim
discover_fields_example = discover_fields-Tiles listed 1 0 (omega arith)
