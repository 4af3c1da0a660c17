-- ===== src/Sql/Filter/Precedence.antt =====
-- sql_helpers.rs `build_filter_where`: a filter's terms are read with AND before OR.
use mathlib.Core.Path.{subst}
use mathlib.Core.List.{append-nil, append_assoc}
use wx_btrieve_sql_driver.Base.{
  Bool, List, Str, [], ap, ap₂, arith, false, if◌then◌else◌, inl, inr, is_empty, join, keep, map,
  not, refl, sym, true, ◌&&◌, ◌++◌, ◌||◌, ◌∙◌, ◌∷◌, ◌≡◌, ◌⊎◌,
}
use wx_btrieve_sql_driver.Dialect.{Backend}
use wx_btrieve_sql_driver.Sql.Filter.{
  Connector, TermClause, and_next, build_filter_where, group_terms, last, or_next, render_group,
}
use wx_btrieve_sql_driver.Sql.KeyWhere.{comparison, or_sep}
use wx_btrieve_sql_driver.Sql.KeyWhere.Formula.{Atom, Row, all_hold, any_holds, render_atoms, test}
use wx_btrieve_sql_driver.SqlParam.{SqlValue}

abbrev pub atom : TermClause → Atom
atom t = record { col = t.col_ref; cmp = t.cmp; value = t.value }

abbrev cons_head : Atom → List (List Atom) → List (List Atom)
cons_head a [] = (a ∷ []) ∷ []
cons_head a (g ∷ gs) = (a ∷ g) ∷ gs

-- The terms that AND joins; a last OR leaves an empty group.
abbrev groups_of : List TermClause → List (List Atom)
groups_of [] = [] ∷ []
groups_of (t ∷ ts) = elim t.connector [
  | or_next ↦ (atom t ∷ []) ∷ groups_of ts
  | and_next ↦ cons_head (atom t) (groups_of ts)
  | last ↦ cons_head (atom t) (groups_of ts)
]

abbrev non_empty {ℓ} : {A : Type ℓ} → List A → Bool
non_empty g = not (is_empty g)

abbrev pub render_each :
    Backend → List (List Atom) → List SqlValue → List (List Str) × List SqlValue
render_each b [] params = ([], params)
render_each b (g ∷ gs) params =
    let this = render_atoms b g params in
    let more = render_each b gs this.1 in (this.0 ∷ more.0, more.1)

-- The truth of the first group of terms and of the groups behind it.
abbrev first_and_rest : Row → List TermClause → Bool × Bool
first_and_rest row [] = (true, false)
first_and_rest row (t ∷ ts) =
    let later = first_and_rest row ts in
    let this = test t.cmp (row t.col_ref t.value) in
    elim t.connector [
      | or_next ↦ (this, if is_empty ts then false else later.0 || later.1)
      | and_next ↦ (this && later.0, later.1)
      | last ↦ (this && later.0, later.1)
    ]

-- The truth of a filter: AND binds tighter than OR.
abbrev pub filter_truth : Row → List TermClause → Bool
filter_truth row ts = (first_and_rest row ts).0 || (first_and_rest row ts).1

abbrev prefix : List Str → List (List Str) → List (List Str)
prefix cur [] = cur ∷ []
prefix cur (g ∷ gs) = (cur ++ g) ∷ gs

render_cons_head :
    (b : Backend) (a : Atom) (gs : List (List Atom)) (params : List SqlValue)
    → let this = comparison b a.col a.cmp a.value params in
      let more = render_each b gs this.1 in
      render_each b (cons_head a gs) params ≡ (prefix (this.0 ∷ []) more.0, more.1)
render_cons_head b a [] params = refl
render_cons_head b a (g ∷ gs) params = refl

Connector-cases : (k : Connector) → (k ≡ and_next) ⊎ (k ≡ or_next) ⊎ (k ≡ last)
Connector-cases and_next = inl refl
Connector-cases or_next = inr (inl refl)
Connector-cases last = inr (inr refl)

prefix-prefix :
    (cur : List Str) (c : Str) (gs : List (List Str))
    → prefix (cur ++ c ∷ []) gs ≡ prefix cur (prefix (c ∷ []) gs)
prefix-prefix cur c [] = refl
prefix-prefix cur c (g ∷ gs) = ap (λ x. x ∷ gs) (append_assoc cur (c ∷ []) g)

cons_head-Cons :
    (a : Atom) (gs : List (List Atom))
    → (g : List Atom) × (rest : List (List Atom)) × (cons_head a gs ≡ (a ∷ g) ∷ rest)
cons_head-Cons a [] = ([], [], refl)
cons_head-Cons a (g ∷ gs) = (g, gs, refl)

-- The first group begins by the first term.
groups_of-Cons :
    (t : TermClause) (ts : List TermClause)
    → (g : List Atom) × (rest : List (List Atom)) × (groups_of (t ∷ ts) ≡ (atom t ∷ g) ∷ rest)
groups_of-Cons t ts =
    let joined = cons_head-Cons (atom t) (groups_of ts) in
    elim (Connector-cases t.connector) [
      | inl e ↦ rw e joined
      | inr (inl e) ↦ rw e ([], groups_of ts, refl)
      | inr (inr e) ↦ rw e joined
    ]

prefix_nil :
    (b : Backend) (ts : List TermClause) (params : List SqlValue)
    → prefix [] (render_each b (groups_of ts) params).0 ≡ (render_each b (groups_of ts) params).0
prefix_nil b [] params = refl
prefix_nil b (t ∷ ts) params =
    let form = groups_of-Cons t ts in
    subst
      (λ (gs : List (List Atom)).
        prefix [] (render_each b gs params).0 ≡ (render_each b gs params).0)
      (sym form.2) refl

group_terms_lem :
    (b : Backend) (ts : List TermClause) (groups : List (List Str)) (cur : List Str)
    → (params : List SqlValue)
    → let r = render_each b (groups_of ts) params in
      group_terms b ts groups cur params ≡ (groups ++ prefix cur r.0, r.1)
group_terms_lem b [] groups cur params = ap (λ c. (groups ++ c ∷ [], params)) (sym (append-nil cur))
group_terms_lem b (t ∷ ts) groups cur params =
    let this = comparison b t.col_ref t.cmp t.value params in
    let joined =
      group_terms_lem b ts groups (cur ++ this.0 ∷ []) this.1
      ∙ ap (λ gs. (groups ++ gs, (render_each b (groups_of ts) this.1).1))
          (prefix-prefix cur this.0 (render_each b (groups_of ts) this.1).0)
      ∙ ap (λ r. (groups ++ prefix cur r.0, r.1))
          (sym (render_cons_head b (atom t) (groups_of ts) params)) in
    elim (Connector-cases t.connector) [
      | inl e ↦ rw e joined
      | inr (inl e) ↦ rw e (
          group_terms_lem b ts (groups ++ (cur ++ this.0 ∷ []) ∷ []) [] this.1
          ∙ ap
              (λ (gs : List (List Str)). (
                (groups ++ (cur ++ this.0 ∷ []) ∷ []) ++ gs,
                (render_each b (groups_of ts) this.1).1,
              ))
              (prefix_nil b ts this.1)
          ∙ ap (λ (gs : List (List Str)). (gs, (render_each b (groups_of ts) this.1).1))
              (append_assoc groups ((cur ++ this.0 ∷ []) ∷ [])
                (render_each b (groups_of ts) this.1).0))
      | inr (inr e) ↦ rw e joined
    ]

-- Empty groups render to nothing and bind nothing.
keep_lem :
    (b : Backend) (gs : List (List Atom)) (params : List SqlValue)
    → (keep non_empty (render_each b gs params).0, (render_each b gs params).1)
      ≡ render_each b (keep non_empty gs) params
keep_lem b [] params = refl
keep_lem b ([] ∷ gs) params = keep_lem b gs params
keep_lem b ((a ∷ g) ∷ gs) params =
    let this = render_atoms b (a ∷ g) params in ap (λ r. (this.0 ∷ r.0, r.1)) (keep_lem b gs this.1)

abbrev first_holds : Row → List (List Atom) → Bool
first_holds row [] = true
first_holds row (g ∷ gs) = all_hold row g

abbrev later_holds : Row → List (List Atom) → Bool
later_holds row [] = false
later_holds row (g ∷ gs) = any_holds row (keep non_empty gs)

abbrev both_hold : Row → List (List Atom) → Bool × Bool
both_hold row gs = (first_holds row gs, later_holds row gs)

abbrev and_first : Bool → Bool × Bool → Bool × Bool
and_first this later = (this && later.0, later.1)

holds_cons_head :
    (row : Row) (a : Atom) (gs : List (List Atom))
    → both_hold row (cons_head a gs) ≡ and_first (test a.cmp (row a.col a.value)) (both_hold row gs)
holds_cons_head row a [] = refl
holds_cons_head row a (g ∷ gs) = refl

any_cons :
    (row : Row) (t : TermClause) (ts : List TermClause)
    → any_holds row (keep non_empty (groups_of (t ∷ ts)))
      ≡ (first_holds row (groups_of (t ∷ ts)) || later_holds row (groups_of (t ∷ ts)))
any_cons row t ts =
    let form = groups_of-Cons t ts in
    subst
      (λ (gs : List (List Atom)).
        any_holds row (keep non_empty gs) ≡ (first_holds row gs || later_holds row gs))
      (sym form.2) refl

rest_holds :
    (row : Row) (ts : List TermClause)
    → any_holds row (keep non_empty (groups_of ts)) ≡ (
        if is_empty ts
        then false
        else first_holds row (groups_of ts) || later_holds row (groups_of ts))
rest_holds row [] = refl
rest_holds row (t ∷ ts) = any_cons row t ts

truth_lem :
    (row : Row) (ts : List TermClause) → both_hold row (groups_of ts) ≡ first_and_rest row ts
truth_lem row [] = refl
truth_lem row (t ∷ ts) =
    let this = test t.cmp (row t.col_ref t.value) in
    let joined =
      holds_cons_head row (atom t) (groups_of ts) ∙ ap (and_first this) (truth_lem row ts) in
    elim (Connector-cases t.connector) [
      | inl e ↦ rw e joined
      | inr (inl e) ↦ rw e (
          ap₂ (λ x y. (x, y)) (ground arith)
            (rest_holds row ts
              ∙ ap (λ (r : Bool × Bool). if is_empty ts then false else r.0 || r.1)
                  (truth_lem row ts)))
      | inr (inr e) ↦ rw e joined
    ]

-- For a filter of one term or more there are groups of comparisons such that the text is their
-- rendering, each group joined by AND, in parentheses unless it is a single comparison, and the
-- groups joined by OR, with the parameters in the order of the markers; and on every row one of
-- the groups holds throughout exactly when the terms do, read with AND before OR.
pub build_filter_where-Selects :
    (b : Backend) (t : TermClause) (ts : List TermClause) (params : List SqlValue)
    → (groups : List (List Atom)) × (build_filter_where b (t ∷ ts) params ≡ (
      join or_sep (map render_group (render_each b groups params).0),
      (render_each b groups params).1,
    ))
      × ((row : Row) → any_holds row groups ≡ filter_truth row (t ∷ ts))
unfolding build_filter_where
build_filter_where-Selects b t ts params = (
  keep non_empty (groups_of (t ∷ ts)),
  ap (λ r. (join or_sep (map render_group (keep non_empty r.0)), r.1))
        (group_terms_lem b (t ∷ ts) [] [] params
          ∙ ap (λ gs. (gs, (render_each b (groups_of (t ∷ ts)) params).1))
              (prefix_nil b (t ∷ ts) params))
      ∙ ap (λ r. (join or_sep (map render_group r.0), r.1))
          (keep_lem b (groups_of (t ∷ ts)) params),
  λ row. any_cons row t ts ∙ ap (λ (r : Bool × Bool). r.0 || r.1) (truth_lem row (t ∷ ts)),
)
