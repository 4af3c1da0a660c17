-- ===== src/Sql/KeyWhere/Formula.antt =====
-- The predicates of Sql.KeyWhere as formulas: comparisons of a column with a bound value, their
-- rendering, and their truth on a row.
use Prim.Native.Nat.{Ordering}
use wx_btrieve_sql_driver.Base.{
  Bool, List, Str, [], false, if◌then◌else◌, is_empty, join, true, ◌&&◌, ◌++◌, ◌||◌, ◌∷◌,
}
use wx_btrieve_sql_driver.Dialect.{Backend}
use wx_btrieve_sql_driver.Sql.Columns.{Dir}
use wx_btrieve_sql_driver.Sql.KeyWhere.{
  Cmp, and_sep, comparison, eq, ge, gt, le, lt, ne, or_sep, parens, seg_cmp,
}
use wx_btrieve_sql_driver.SqlParam.{SqlValue}

pub record Atom : Type 0 where
  pub col : Str
  pub cmp : Cmp
  pub value : SqlValue

-- A conjunction stands bare; in a disjunction each conjunction stands in parentheses.
pub data Formula : Type 0 where
  conj : List Atom → Formula
  disj : List (List Atom) → Formula

abbrev pub render_atoms : Backend → List Atom → List SqlValue → List Str × List SqlValue
render_atoms b [] params = ([], params)
render_atoms b (a ∷ rest) params =
    let this = comparison b a.col a.cmp a.value params in
    let more = render_atoms b rest this.1 in (this.0 ∷ more.0, more.1)

abbrev pub render_conjs : Backend → List (List Atom) → List SqlValue → List Str × List SqlValue
render_conjs b [] params = ([], params)
render_conjs b (c ∷ cs) params =
    let this = render_atoms b c params in
    let more = render_conjs b cs this.1 in (parens (join and_sep this.0) ∷ more.0, more.1)

abbrev pub render : Backend → Formula → List SqlValue → Str × List SqlValue
render b (conj atoms) params = let r = render_atoms b atoms params in (join and_sep r.0, r.1)
render b (disj conjs) params = let r = render_conjs b conjs params in (join or_sep r.0, r.1)

-- A row, by how the value of a column compares with another value.
abbrev pub Row : Type 0
Row = Str → SqlValue → Ordering

abbrev pub test : Cmp → Ordering → Bool
test eq Ordering.lt = false
test eq Ordering.eq = true
test eq Ordering.gt = false
test gt Ordering.lt = false
test gt Ordering.eq = false
test gt Ordering.gt = true
test ge Ordering.lt = false
test ge Ordering.eq = true
test ge Ordering.gt = true
test lt Ordering.lt = true
test lt Ordering.eq = false
test lt Ordering.gt = false
test le Ordering.lt = true
test le Ordering.eq = true
test le Ordering.gt = false
test ne Ordering.lt = true
test ne Ordering.eq = false
test ne Ordering.gt = true

abbrev pub all_hold : Row → List Atom → Bool
all_hold row [] = true
all_hold row (a ∷ rest) = test a.cmp (row a.col a.value) && all_hold row rest

abbrev pub any_holds : Row → List (List Atom) → Bool
any_holds row [] = false
any_holds row (c ∷ cs) = all_hold row c || any_holds row cs

abbrev pub holds : Row → Formula → Bool
holds row (conj atoms) = all_hold row atoms
holds row (disj conjs) = any_holds row conjs

abbrev pub equals : List (Str × SqlValue) → List Atom
equals [] = []
equals ((c, v) ∷ rest) = record { col = c; cmp = eq; value = v } ∷ equals rest

-- The conjunction of one column: those before it equal, this one compared.
abbrev pub column_atoms : List (Str × SqlValue) → Str → Cmp → SqlValue → List Atom
column_atoms before c cmp v = equals before ++ record { col = c; cmp = cmp; value = v } ∷ []

abbrev pub key_conjs : Cmp → Cmp → List (Str × SqlValue) → List (Str × SqlValue) → List (List Atom)
key_conjs cmp strict before [] = []
key_conjs cmp strict before ((c, v) ∷ rest) =
    column_atoms before c (if is_empty rest then cmp else strict) v
    ∷ key_conjs cmp strict (before ++ (c, v) ∷ []) rest

abbrev pub walk_conjs :
    Dir → List (Str × SqlValue) → List (Str × SqlValue × Bool) → List (List Atom)
walk_conjs dir before [] = []
walk_conjs dir before ((c, v, d) ∷ rest) =
    column_atoms before c (seg_cmp dir d) v ∷ walk_conjs dir (before ++ (c, v) ∷ []) rest
