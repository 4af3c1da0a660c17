-- ===== src/Sql/KeyWhere/Lexicographic.antt =====
-- What the predicates of Sql.KeyWhere select: rows by the lexicographic order of their keys.
use Prim.Native.Nat.{Ordering}
use wx_btrieve_sql_driver.Base.{
  Bool, List, Str, [], ap, ap₂, arith, false, join, refl, sym, true, ℤ, ◌&&◌, ◌++◌, ◌||◌, ◌∙◌, ◌∷◌,
  ◌≡◌,
}
use wx_btrieve_sql_driver.Dialect.{Backend}
use wx_btrieve_sql_driver.Sql.Columns.{Dir, backward, forward}
use wx_btrieve_sql_driver.Sql.KeyWhere.{
  Cmp, and_sep, build_continuation_where_marker, build_key_where, eq, ge, gt, le, lt, ne, or_sep,
  ordered_where, seg_cmp, strict_of,
}
use wx_btrieve_sql_driver.Sql.KeyWhere.Formula.{
  Atom, Formula, Row, all_hold, any_holds, column_atoms, conj, disj, equals, holds, key_conjs,
  render, test, walk_conjs,
}
use wx_btrieve_sql_driver.Sql.KeyWhere.Render.{
  equalities_lem, key_clauses_lem, walk_clauses-append, walk_clauses_lem,
}
use wx_btrieve_sql_driver.SqlParam.{SqlValue, i64}

-- The first column that differs decides.
abbrev pub then_by : Ordering → Ordering → Ordering
then_by Ordering.lt next = Ordering.lt
then_by Ordering.eq next = next
then_by Ordering.gt next = Ordering.gt

-- How the key of a row compares with a key.
abbrev pub compare_key : Row → List (Str × SqlValue) → Ordering
compare_key row [] = Ordering.eq
compare_key row ((c, v) ∷ rest) = then_by (row c v) (compare_key row rest)

abbrev opposite : Ordering → Ordering
opposite Ordering.lt = Ordering.gt
opposite Ordering.eq = Ordering.eq
opposite Ordering.gt = Ordering.lt

-- The order in which a walk meets the values of a column: against the index when one of
-- backward and descending holds.
abbrev pub met : Dir → Bool → Ordering → Ordering
met forward false o = o
met forward true o = opposite o
met backward false o = opposite o
met backward true o = o

-- How a row stands to a key in the order of a walk.
abbrev pub compare_walk : Dir → Row → List (Str × SqlValue × Bool) → Ordering
compare_walk dir row [] = Ordering.eq
compare_walk dir row ((c, v, d) ∷ rest) = then_by (met dir d (row c v)) (compare_walk dir row rest)

-- The searches of `build_key_where`; the ops never pass it `ne`.
abbrev pub IsSearch : Cmp → Type 0
IsSearch ne = ⊥
IsSearch eq = Unit {0}
IsSearch gt = Unit {0}
IsSearch ge = Unit {0}
IsSearch lt = Unit {0}
IsSearch le = Unit {0}

-- The searches for a range of keys.
abbrev IsRange : Cmp → Type 0
IsRange eq = ⊥
IsRange cmp = IsSearch cmp

all_hold-append :
    (row : Row) (xs ys : List Atom) → all_hold row (xs ++ ys) ≡ (all_hold row xs && all_hold row ys)
all_hold-append row [] ys = refl
all_hold-append row (a ∷ xs) ys = ground (arith, all_hold-append row xs ys)

equals-append :
    (xs : List (Str × SqlValue)) (c : Str) (v : SqlValue)
    → equals (xs ++ (c, v) ∷ []) ≡ equals xs ++ record { col = c; cmp = eq; value = v } ∷ []
equals-append [] c v = refl
equals-append ((d, u) ∷ xs) c v =
    ap (λ r. record { col = d; cmp = eq; value = u } ∷ r) (equals-append xs c v)

hold-column :
    (row : Row) (before : List (Str × SqlValue)) (c : Str) (cmp : Cmp) (v : SqlValue)
    → all_hold row (column_atoms before c cmp v)
      ≡ (all_hold row (equals before) && test cmp (row c v))
hold-column row before c cmp v =
    all_hold-append row (equals before) _
    ∙ ap (λ t. all_hold row (equals before) && t) (ground arith)

equal_before :
    (row : Row) (before : List (Str × SqlValue)) (c : Str) (v : SqlValue)
    → all_hold row (equals (before ++ (c, v) ∷ []))
      ≡ (all_hold row (equals before) && test eq (row c v))
equal_before row before c v =
    ap (all_hold row) (equals-append before c v) ∙ hold-column row before c eq v

-- An inequality of two columns: the first is beyond, or it is equal and the second decides.
split_test :
    (cmp : Cmp) (o k : Ordering) (x : Bool)
    → IsRange cmp
    → (x && test (strict_of cmp) o || x && test eq o && test cmp k) ≡ (x && test cmp (then_by o k))
split_test eq o k x h = absurd h
split_test ne o k x h = absurd h
split_test gt o k x h = ground arith
split_test ge o k x h = ground arith
split_test lt o k x h = ground arith
split_test le o k x h = ground arith

single_test :
    (cmp : Cmp) (o : Ordering) (x : Bool)
    → (x && test cmp o || false) ≡ (x && test cmp (then_by o Ordering.eq))
single_test cmp o x = ground arith

range_lem :
    (row : Row) (cmp : Cmp) (before : List (Str × SqlValue)) (c : Str) (v : SqlValue)
    → (rest : List (Str × SqlValue)) → IsRange cmp
    → any_holds row (key_conjs cmp (strict_of cmp) before ((c, v) ∷ rest))
      ≡ (all_hold row (equals before) && test cmp (compare_key row ((c, v) ∷ rest)))
range_lem row cmp before c v [] h =
    ap (λ t. t || false) (hold-column row before c cmp v)
    ∙ single_test cmp (row c v) (all_hold row (equals before))
range_lem row cmp before c v ((d, u) ∷ rest) h =
    ap₂ (λ s t. s || t) (hold-column row before c (strict_of cmp) v)
      (range_lem row cmp (before ++ (c, v) ∷ []) d u rest h
        ∙ ap (λ t. t && test cmp (compare_key row ((d, u) ∷ rest))) (equal_before row before c v))
    ∙ split_test cmp (row c v) (compare_key row ((d, u) ∷ rest)) (all_hold row (equals before)) h

equal_lem :
    (row : Row) (cols : List (Str × SqlValue))
    → all_hold row (equals cols) ≡ test eq (compare_key row cols)
equal_lem row [] = refl
equal_lem row ((c, v) ∷ rest) = ground (arith, equal_lem row rest)

walk_test :
    (dir : Dir) (d : Bool) (o k : Ordering) (x : Bool)
    → (x && test (seg_cmp dir d) o || x && test eq o && test gt k)
      ≡ (x && test gt (then_by (met dir d o) k))
walk_test dir d o k x = ground arith

walk_lem :
    (row : Row) (dir : Dir) (before : List (Str × SqlValue))
    → (cols : List (Str × SqlValue × Bool))
    → any_holds row (walk_conjs dir before cols)
      ≡ (all_hold row (equals before) && test gt (compare_walk dir row cols))
walk_lem row dir before [] = ground arith
walk_lem row dir before ((c, v, d) ∷ rest) =
    ap₂ (λ s t. s || t) (hold-column row before c (seg_cmp dir d) v)
      (walk_lem row dir (before ++ (c, v) ∷ []) rest
        ∙ ap (λ t. t && test gt (compare_walk dir row rest)) (equal_before row before c v))
    ∙ walk_test dir d (row c v) (compare_walk dir row rest) (all_hold row (equals before))

range_where :
    (b : Backend) (kc : Str × SqlValue) (kcs : List (Str × SqlValue)) (cmp : Cmp)
    → (params : List SqlValue) → IsRange cmp
    → (f : Formula) × (ordered_where b (kc ∷ kcs) cmp params ≡ render b f params)
      × ((row : Row) → holds row f ≡ test cmp (compare_key row (kc ∷ kcs)))
range_where b (c, v) kcs cmp params h = (
  disj (key_conjs cmp (strict_of cmp) [] ((c, v) ∷ kcs)),
  ap (λ r. (join or_sep r.0, r.1)) (key_clauses_lem b cmp (strict_of cmp) [] ((c, v) ∷ kcs) params),
  λ row. range_lem row cmp [] c v kcs h,
)

-- The text of a search for a key of one column or more is, with its parameters, the rendering of
-- a formula that is true of exactly the rows whose key, compared column by column with the key
-- sought, stands in the relation asked for: equal, greater, greater or equal, less, less or equal.
pub build_key_where-Selects :
    (b : Backend) (kc : Str × SqlValue) (kcs : List (Str × SqlValue)) (cmp : Cmp)
    → (params : List SqlValue) → IsSearch cmp
    → (f : Formula) × (build_key_where b (kc ∷ kcs) cmp params ≡ render b f params)
      × ((row : Row) → holds row f ≡ test cmp (compare_key row (kc ∷ kcs)))
unfolding build_key_where
build_key_where-Selects b kc kcs eq params h = (
  conj (equals (kc ∷ kcs)),
  ap (λ r. (join and_sep r.0, r.1)) (equalities_lem b (kc ∷ kcs) params),
  λ row. equal_lem row (kc ∷ kcs),
)
build_key_where-Selects b kc kcs ne params h = absurd h
build_key_where-Selects b kc kcs gt params h = range_where b kc kcs gt params tt
build_key_where-Selects b kc kcs ge params h = range_where b kc kcs ge params tt
build_key_where-Selects b kc kcs lt params h = range_where b kc kcs lt params tt
build_key_where-Selects b kc kcs le params h = range_where b kc kcs le params tt

-- The text of a walk's continuation is, with its parameters, the rendering of a formula that is
-- true of exactly the rows that come after the last one in the order of the walk: by the columns
-- of the index, descending ones reversed, then by the record number, all reversed on a walk
-- backward.
pub build_continuation_where_marker-Selects :
    (b : Backend) (cols : List (Str × SqlValue × Bool)) (dir : Dir) (last_rn : ℤ)
    → (recnum_expr : Str) (params : List SqlValue)
    → (f : Formula) × (build_continuation_where_marker b cols dir last_rn recnum_expr params
        ≡ render b f params)
      × ((row : Row)
          → holds row f
            ≡ test gt (compare_walk dir row (cols ++ (recnum_expr, i64 last_rn, false) ∷ [])))
unfolding build_continuation_where_marker
build_continuation_where_marker-Selects b [] dir last_rn recnum_expr params = (
  conj (column_atoms [] recnum_expr (seg_cmp dir false) (i64 last_rn)),
  refl,
  λ row. ground (arith, walk_lem row dir [] ((recnum_expr, i64 last_rn, false) ∷ [])),
)
build_continuation_where_marker-Selects b (kc ∷ kcs) dir last_rn recnum_expr params =
    let all = kc ∷ kcs ++ (recnum_expr, i64 last_rn, false) ∷ [] in
    (
      disj (walk_conjs dir [] all),
      ap (λ r. (join or_sep r.0, r.1))
          (sym (walk_clauses-append b dir [] (kc ∷ kcs) recnum_expr (i64 last_rn) false params)
            ∙ walk_clauses_lem b dir [] all params),
      λ row. walk_lem row dir [] all,
    )
