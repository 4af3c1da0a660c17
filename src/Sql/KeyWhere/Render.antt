-- ===== src/Sql/KeyWhere/Render.antt =====
-- Sql.KeyWhere renders the formulas of Sql.KeyWhere.Formula.
use mathlib.Core.List.{append-nil, append_assoc}
use wx_btrieve_sql_driver.Base.{
  Bool, List, Str, [], ap, if◌then◌else◌, is_empty, join, refl, sym, ◌++◌, ◌∙◌, ◌∷◌, ◌≡◌,
}
use wx_btrieve_sql_driver.Dialect.{Backend}
use wx_btrieve_sql_driver.Sql.Columns.{Dir}
use wx_btrieve_sql_driver.Sql.KeyWhere.{
  Cmp, and_sep, column_clause, comparison, eq, equalities, key_clauses, parens, plain, seg_cmp,
  walk_clauses,
}
use wx_btrieve_sql_driver.Sql.KeyWhere.Formula.{
  Atom, column_atoms, equals, key_conjs, render_atoms, render_conjs, walk_conjs,
}
use wx_btrieve_sql_driver.SqlParam.{SqlValue}

pub equalities_lem :
    (b : Backend) (cols : List (Str × SqlValue)) (params : List SqlValue)
    → equalities b cols params ≡ render_atoms b (equals cols) params
equalities_lem b [] params = refl
equalities_lem b ((c, v) ∷ rest) params =
    ap (λ r. ((comparison b c eq v params).0 ∷ r.0, r.1))
      (equalities_lem b rest (comparison b c eq v params).1)

render_atoms-append :
    (b : Backend) (xs ys : List Atom) (params : List SqlValue)
    → render_atoms b (xs ++ ys) params ≡ (
      (render_atoms b xs params).0 ++ (render_atoms b ys (render_atoms b xs params).1).0,
      (render_atoms b ys (render_atoms b xs params).1).1,
    )
render_atoms-append b [] ys params = refl
render_atoms-append b (a ∷ xs) ys params =
    ap (λ r. ((comparison b a.col a.cmp a.value params).0 ∷ r.0, r.1))
      (render_atoms-append b xs ys (comparison b a.col a.cmp a.value params).1)

column_clause_lem :
    (b : Backend) (before : List (Str × SqlValue)) (c : Str) (cmp : Cmp) (v : SqlValue)
    → (params : List SqlValue)
    → column_clause b before c cmp v params ≡ (
      parens (join and_sep (render_atoms b (column_atoms before c cmp v) params).0),
      (render_atoms b (column_atoms before c cmp v) params).1,
    )
column_clause_lem b before c cmp v params =
    ap
      (λ e. (
        parens (join and_sep (e.0 ++ (comparison b c cmp v e.1).0 ∷ [])),
        (comparison b c cmp v e.1).1,
      ))
      (equalities_lem b before params)
    ∙ ap (λ r. (parens (join and_sep r.0), r.1))
        (sym (render_atoms-append b (equals before) _ params))

pub key_clauses_lem :
    (b : Backend) (cmp strict : Cmp) (before cols : List (Str × SqlValue))
    → (params : List SqlValue)
    → key_clauses b cmp strict before cols params
      ≡ render_conjs b (key_conjs cmp strict before cols) params
key_clauses_lem b cmp strict before [] params = refl
key_clauses_lem b cmp strict before ((c, v) ∷ rest) params =
    let this = if is_empty rest then cmp else strict in
    let more = λ (ps : List SqlValue). key_clauses b cmp strict (before ++ (c, v) ∷ []) rest ps in
    ap (λ x. (x.0 ∷ (more x.1).0, (more x.1).1)) (column_clause_lem b before c this v params)
    ∙ ap
        (λ r. (
          parens (join and_sep (render_atoms b (column_atoms before c this v) params).0) ∷ r.0,
          r.1,
        ))
        (key_clauses_lem b cmp strict (before ++ (c, v) ∷ []) rest _)

pub walk_clauses_lem :
    (b : Backend) (dir : Dir) (before : List (Str × SqlValue))
    → (cols : List (Str × SqlValue × Bool)) (params : List SqlValue)
    → walk_clauses b dir before cols params ≡ render_conjs b (walk_conjs dir before cols) params
walk_clauses_lem b dir before [] params = refl
walk_clauses_lem b dir before ((c, v, d) ∷ rest) params =
    let this = seg_cmp dir d in
    let more = λ (ps : List SqlValue). walk_clauses b dir (before ++ (c, v) ∷ []) rest ps in
    ap (λ x. (x.0 ∷ (more x.1).0, (more x.1).1)) (column_clause_lem b before c this v params)
    ∙ ap
        (λ r. (
          parens (join and_sep (render_atoms b (column_atoms before c this v) params).0) ∷ r.0,
          r.1,
        ))
        (walk_clauses_lem b dir (before ++ (c, v) ∷ []) rest _)

-- The clause of the record number is that of one more column behind the others.
pub walk_clauses-append :
    (b : Backend) (dir : Dir) (before : List (Str × SqlValue))
    → (cols : List (Str × SqlValue × Bool)) (c : Str) (v : SqlValue) (d : Bool)
    → (params : List SqlValue)
    → walk_clauses b dir before (cols ++ (c, v, d) ∷ []) params ≡ (
      (walk_clauses b dir before cols params).0
          ++ (column_clause b
              (before ++ plain cols)
              c
              (seg_cmp dir d)
              v
              (walk_clauses b dir before cols params).1).0
            ∷ [],
      (column_clause b
          (before ++ plain cols)
          c
          (seg_cmp dir d)
          v
          (walk_clauses b dir before cols params).1).1,
    )
walk_clauses-append b dir before [] c v d params =
    ap
      (λ bs. (
        (column_clause b bs c (seg_cmp dir d) v params).0 ∷ [],
        (column_clause b bs c (seg_cmp dir d) v params).1,
      ))
      (sym (append-nil before))
walk_clauses-append b dir before ((e, u, f) ∷ rest) c v d params =
    let head = column_clause b before e (seg_cmp dir f) u params in
    let later = walk_clauses b dir (before ++ (e, u) ∷ []) rest head.1 in
    ap (λ r. (head.0 ∷ r.0, r.1))
      (walk_clauses-append b dir (before ++ (e, u) ∷ []) rest c v d head.1)
    ∙ ap
        (λ (bs : List (Str × SqlValue)).
          let tie = column_clause b bs c (seg_cmp dir d) v later.1 in
          (head.0 ∷ later.0 ++ tie.0 ∷ [], tie.1))
        (append_assoc before ((e, u) ∷ []) (plain rest))
