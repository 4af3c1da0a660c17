-- ===== src/Sql/KeyWhere.antt =====
-- sql_helpers.rs `build_key_where` and `build_continuation_where_marker`: the predicates of the
-- key searches and of the walks, with the values that they bind pushed onto `params`.
pub mod Formula
pub mod Render
pub mod Lexicographic
use wx_btrieve_sql_driver.Base.{
  Bool, List, Str, [], codes, false, if◌then◌else◌, is_empty, join, length, map, pos, refl,
  show_nat, true, xor, ℤ, ◌++◌, ◌<◌, ◌∷◌, ◌≡◌,
}
use wx_btrieve_sql_driver.Dialect.{Backend, mssql, param_marker, postgres}
use wx_btrieve_sql_driver.Sql.Columns.{Dir, forward, is_forward}
use wx_btrieve_sql_driver.SqlParam.{SqlValue, i64}

-- The comparison operators that the ops pass as text.
pub data Cmp : Type 0 where
  eq gt ge lt le ne : Cmp

abbrev pub sql_cmp : Cmp → Str
sql_cmp eq = codes "="
sql_cmp gt = codes ">"
sql_cmp ge = codes ">="
sql_cmp lt = codes "<"
sql_cmp le = codes "<="
sql_cmp ne = codes "<>"

abbrev pub and_sep : Str
and_sep = codes " AND "

abbrev pub or_sep : Str
or_sep = codes " OR "

abbrev pub parens : Str → Str
parens s = codes "(" ++ s ++ codes ")"

-- `params.push(v)`, then `"{c} {cmp} {marker}"`
abbrev pub comparison : Backend → Str → Cmp → SqlValue → List SqlValue → Str × List SqlValue
comparison b c cmp v params =
    let params' = params ++ v ∷ [] in
    (c ++ codes " " ++ sql_cmp cmp ++ codes " " ++ param_marker b (length params'), params')

-- `"{c} = {marker}"` for each column
abbrev pub equalities : Backend → List (Str × SqlValue) → List SqlValue → List Str × List SqlValue
equalities b [] params = ([], params)
equalities b ((c, v) ∷ rest) params =
    let (part, params') = comparison b c eq v params in
    let (parts, out) = equalities b rest params' in (part ∷ parts, out)

-- The clause of one column: the columns before it equal, this one compared by `cmp`.
abbrev pub column_clause :
    Backend → List (Str × SqlValue) → Str → Cmp → SqlValue → List SqlValue → Str × List SqlValue
column_clause b before c cmp v params =
    let (eqs, params') = equalities b before params in
    let (part, out) = comparison b c cmp v params' in
    (parens (join and_sep (eqs ++ part ∷ [])), out)

-- The loop over `0..n`: `before` is `key_cols[..i]`.
abbrev pub key_clauses :
    Backend
    → Cmp
    → Cmp
    → List (Str × SqlValue)
    → List (Str × SqlValue)
    → List SqlValue
    → List Str × List SqlValue
key_clauses b cmp strict before [] params = ([], params)
key_clauses b cmp strict before ((c, v) ∷ rest) params =
    let this_cmp = if is_empty rest then cmp else strict in
    let (clause, params') = column_clause b before c this_cmp v params in
    let (clauses, out) = key_clauses b cmp strict (before ++ (c, v) ∷ []) rest params' in
    (clause ∷ clauses, out)

abbrev pub strict_of : Cmp → Cmp
strict_of ge = gt
strict_of gt = gt
strict_of _ = lt

abbrev pub ordered_where :
    Backend → List (Str × SqlValue) → Cmp → List SqlValue → Str × List SqlValue
ordered_where b key_cols cmp params =
    let (clauses, out) = key_clauses b cmp (strict_of cmp) [] key_cols params in
    (join or_sep clauses, out)

abbrev equal_where : Backend → List (Str × SqlValue) → List SqlValue → Str × List SqlValue
equal_where b key_cols params =
    let (parts, out) = equalities b key_cols params in (join and_sep parts, out)

unfoldable pub build_key_where :
    Backend → List (Str × SqlValue) → Cmp → List SqlValue → Str × List SqlValue
build_key_where b [] cmp params = (codes "1=1", params)
build_key_where b (kc ∷ kcs) eq params = equal_where b (kc ∷ kcs) params
build_key_where b (kc ∷ kcs) cmp params = ordered_where b (kc ∷ kcs) cmp params

abbrev pub seg_cmp : Dir → Bool → Cmp
seg_cmp dir is_desc = if xor (is_forward dir) is_desc then gt else lt

abbrev pub plain : List (Str × SqlValue × Bool) → List (Str × SqlValue)
plain cols = map (λ k. (k.0, k.1)) cols

-- The loop over `0..n` of the continuation.
abbrev pub walk_clauses :
    Backend
    → Dir
    → List (Str × SqlValue)
    → List (Str × SqlValue × Bool)
    → List SqlValue
    → List Str × List SqlValue
walk_clauses b dir before [] params = ([], params)
walk_clauses b dir before ((c, v, d) ∷ rest) params =
    let (clause, params') = column_clause b before c (seg_cmp dir d) v params in
    let (clauses, out) = walk_clauses b dir (before ++ (c, v) ∷ []) rest params' in
    (clause ∷ clauses, out)

unfoldable pub build_continuation_where_marker :
    Backend → List (Str × SqlValue × Bool) → Dir → ℤ → Str → List SqlValue → Str × List SqlValue
build_continuation_where_marker b [] dir last_rn recnum_expr params =
    comparison b recnum_expr (seg_cmp dir false) (i64 last_rn) params
build_continuation_where_marker b (kc ∷ kcs) dir last_rn recnum_expr params =
    let cols = kc ∷ kcs in
    let (clauses, params') = walk_clauses b dir [] cols params in
    let (tie, out) =
      column_clause b (plain cols) recnum_expr (seg_cmp dir false) (i64 last_rn) params' in
    (join or_sep (clauses ++ tie ∷ []), out)

two_segments :
    build_key_where mssql ((codes "[A]", i64 (pos 1)) ∷ (codes "[B]", i64 (pos 2)) ∷ []) ge []
    ≡ (codes "([A] > ?) OR ([A] = ? AND [B] >= ?)", i64 (pos 1) ∷ i64 (pos 1) ∷ i64 (pos 2) ∷ [])
unfolding build_key_where param_marker
two_segments = refl

walk_descending :
    build_continuation_where_marker postgres
      ((codes "A", i64 (pos 1), true) ∷ [])
      forward
      (pos 7)
      (codes "R")
      []
    ≡ (codes "(A < $1) OR (A = $2 AND R > $3)", i64 (pos 1) ∷ i64 (pos 1) ∷ i64 (pos 7) ∷ [])
unfolding build_continuation_where_marker param_marker show_nat
walk_descending = refl
