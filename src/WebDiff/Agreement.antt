-- ===== src/WebDiff/Agreement.antt =====
-- diff.rs: what `diff` reports is what `apply` changes.
use mathlib.Core.List.{reverse}
use mathlib.Core.Path.{subst}
use wx_btrieve_sql_driver.Base.{
  Bool, Bool-cases, List, Option, Option-cases, Str, [], and_then, any, any-reverse, ap, ap₂, codes,
  false, find, if◌then◌else◌, inl, inr, keep, map, max, none, not, refl, show_nat, some, str_eq,
  sym, to_ascii_uppercase, trim, trim_end, true, ℕ, ◌++◌, ◌-◌, ◌∙◌, ◌∷◌, ◌≡◌,
}
use wx_btrieve_sql_driver.Dialect.{Backend, postgres}
use wx_btrieve_sql_driver.Importer.Codec.{sql_type}
use wx_btrieve_sql_driver.Importer.Codec.Literals.{as_type}
use wx_btrieve_sql_driver.Importer.Schema.{IntFile}
use wx_btrieve_sql_driver.Importer.Sqlsrv.{sql_type_str}
use wx_btrieve_sql_driver.Importer.Sqlsrv.Unquoting.{trim_end_last}
use wx_btrieve_sql_driver.Record.Slices.{type_lstring, type_string, type_zstring, type_zstring_12}
use wx_btrieve_sql_driver.Schema.{IntField}
use wx_btrieve_sql_driver.WebDiff.{
  BackendColumn, DiffLists, add_statement, apply_statements, before_char, canonical, column_named,
  drop_statement, extra_loop, has_name, in_backend, in_project, is_named, normalize_type,
  place_column, project_loop, sort_column, to_add, to_drop, types_match,
}
use wx_btrieve_sql_driver.WebDiff.Names.{keep_named}

found_any :
    (p : BackendColumn → Bool) (xs : List BackendColumn) (c : BackendColumn)
    → find p xs ≡ some c
    → any p xs ≡ true
found_any p [] c h = cc
found_any p (x ∷ xs) c h = elim (Bool-cases (p x)) [
  | inl e ↦ rw e refl
  | inr e ↦ rw e (found_any p xs c (rw e at h))
]

none_found :
    (p : BackendColumn → Bool) (xs : List BackendColumn) → find p xs ≡ none → any p xs ≡ false
none_found p [] h = refl
none_found p (x ∷ xs) h = elim (Bool-cases (p x)) [
  | inl e ↦ cc (rw e at h)
  | inr e ↦ rw e (none_found p xs (rw e at h))
]

abbrev pub diff_names : List IntField → List Str
diff_names fs = map (λ (f : IntField). f.name) fs

-- Whether the types agree, of a field whose column is there.
abbrev pub verdict : Backend → List BackendColumn → IntField → Option Bool
verdict b columns f =
    and_then (column_named (to_ascii_uppercase f.name) columns)
      (λ (c : BackendColumn). types_match b (sql_type_str b f []) c.data_type)

abbrev pub is_verdict : Bool → Option Bool → Bool
is_verdict want none = false
is_verdict true (some r) = r
is_verdict false (some r) = not r

abbrev pub with_verdict : Bool → Backend → List BackendColumn → List IntField → List IntField
with_verdict want b columns fields = keep (λ f. is_verdict want (verdict b columns f)) fields

-- A report on some fields: those that are missing, that agree and that do not.
abbrev Reported : Backend → List BackendColumn → List IntField → DiffLists → Type 0
Reported b columns fields lists =
    (lists.missing ≡ diff_names (to_add columns fields))
    × (lists.matched ≡ diff_names (with_verdict true b columns fields))
    × (lists.mismatches ≡ diff_names (with_verdict false b columns fields))

keep_yes :
    {A : Type 0} (p : A → Bool) (x : A) (xs : List A) → p x ≡ true → keep p (x ∷ xs) ≡ x ∷ keep p xs
keep_yes p x xs h = rw h refl

keep_no :
    {A : Type 0} (p : A → Bool) (x : A) (xs : List A) → p x ≡ false → keep p (x ∷ xs) ≡ keep p xs
keep_no p x xs h = rw h refl

module _ (b : Backend) (columns : List BackendColumn) (f : IntField) (fs : List IntField) where
  to_add-no : in_backend columns f ≡ true → to_add columns (f ∷ fs) ≡ to_add columns fs
  to_add-no h = keep_no (λ g. not (in_backend columns g)) f fs (ap not h)

  counts :
      (want : Bool) (o : Option Bool)
      → verdict b columns f ≡ o
      → is_verdict want o ≡ true
      → with_verdict want b columns (f ∷ fs) ≡ f ∷ with_verdict want b columns fs
  counts want o v h =
      keep_yes (λ g. is_verdict want (verdict b columns g)) f fs (ap (is_verdict want) v ∙ h)

  passes :
      (want : Bool) (o : Option Bool)
      → verdict b columns f ≡ o
      → is_verdict want o ≡ false
      → with_verdict want b columns (f ∷ fs) ≡ with_verdict want b columns fs
  passes want o v h =
      keep_no (λ g. is_verdict want (verdict b columns g)) f fs (ap (is_verdict want) v ∙ h)

  sort-Reported :
      (o : Option Bool) (old lists : DiffLists)
      → in_backend columns f ≡ true
      → verdict b columns f ≡ o
      → Reported b columns fs old
      → sort_column f o old ≡ some lists
      → Reported b columns (f ∷ fs) lists
  sort-Reported none old lists here v h e = cc
  sort-Reported (some true) old lists here v h e =
      let same : record old { matched = f.name ∷ old.matched } ≡ lists = cc in
      subst (Reported b columns (f ∷ fs)) same (
        h.0 ∙ ap diff_names (sym (to_add-no here)),
        ap (λ l. f.name ∷ l) h.1 ∙ ap diff_names (sym (counts true (some true) v refl)),
        h.2 ∙ ap diff_names (sym (passes false (some true) v refl)),
      )
  sort-Reported (some false) old lists here v h e =
      let same : record old { mismatches = f.name ∷ old.mismatches } ≡ lists = cc in
      subst (Reported b columns (f ∷ fs)) same (
        h.0 ∙ ap diff_names (sym (to_add-no here)),
        h.1 ∙ ap diff_names (sym (passes true (some false) v refl)),
        ap (λ l. f.name ∷ l) h.2 ∙ ap diff_names (sym (counts false (some false) v refl)),
      )

  place-Reported :
      (o : Option BackendColumn) (old lists : DiffLists)
      → column_named (to_ascii_uppercase f.name) columns ≡ o
      → Reported b columns fs old
      → place_column b f o old ≡ some lists
      → Reported b columns (f ∷ fs) lists
  place-Reported none old lists named h e =
      let key = has_name (to_ascii_uppercase f.name) in
      let absent = sym (any-reverse key columns) ∙ none_found key (reverse columns) named in
      let v : verdict b columns f ≡ none =
        ap
          (λ o. and_then o (λ (c : BackendColumn). types_match b (sql_type_str b f []) c.data_type))
          named in
      let same : record old { missing = f.name ∷ old.missing } ≡ lists = cc in
      subst (Reported b columns (f ∷ fs)) same (
        ap (λ l. f.name ∷ l) h.0
            ∙ ap diff_names (sym (keep_yes (λ g. not (in_backend columns g)) f fs (ap not absent))),
        h.1 ∙ ap diff_names (sym (passes true none v refl)),
        h.2 ∙ ap diff_names (sym (passes false none v refl)),
      )
  place-Reported (some c) old lists named h e =
      let key = has_name (to_ascii_uppercase f.name) in
      let here = sym (any-reverse key columns) ∙ found_any key (reverse columns) c named in
      let v =
        ap
          (λ o. and_then o (λ (d : BackendColumn). types_match b (sql_type_str b f []) d.data_type))
          named in
      sort-Reported (types_match b (sql_type_str b f []) c.data_type) old lists here v h e

project_loop-Reported :
    (b : Backend) (columns : List BackendColumn) (fields : List IntField) (lists : DiffLists)
    → project_loop b columns fields ≡ some lists
    → Reported b columns fields lists
unfolding project_loop
project_loop-Reported b columns [] lists h =
    let same : record { matched = []; missing = []; mismatches = [] } ≡ lists = cc in
    subst (Reported b columns []) same (refl, refl, refl)
project_loop-Reported b columns (f ∷ fs) lists h =
    let place = place_column b f (column_named (to_ascii_uppercase f.name) columns) in
    elim (Option-cases (project_loop b columns fs)) [
      | inl e ↦ cc (ap (λ o. and_then o place) (sym e) ∙ h)
      | inr (old, e) ↦
          place-Reported b columns f fs (column_named (to_ascii_uppercase f.name) columns) old lists
            refl (project_loop-Reported b columns fs old e) (ap (λ o. and_then o place) (sym e) ∙ h)
    ]

extra_loop-to_drop :
    (fields : List IntField) (columns : List BackendColumn)
    → extra_loop fields columns ≡ map (λ (c : BackendColumn). c.name) (to_drop fields columns)
extra_loop-to_drop fields [] = refl
extra_loop-to_drop fields (c ∷ cs) = elim (Bool-cases (in_project fields c)) [
  | inl e ↦ rw e (extra_loop-to_drop fields cs)
  | inr e ↦ rw e (ap (λ l. c.name ∷ l) (extra_loop-to_drop fields cs))
]

-- What `apply` sends, read off a report: an ALTER for each field reported as missing, and one for
-- each column reported as extra, where they are asked for.
abbrev pub reported_statements :
    Backend → IntFile → List BackendColumn → List Str → List Str → Bool → Bool → List Str
reported_statements b table columns missing extra add_missing drop_extra =
    (if add_missing
      then map (add_statement b table)
          (keep (λ (f : IntField). any (str_eq f.name) missing) table.fields)
      else [])
    ++ (if drop_extra
        then map (drop_statement b table)
            (keep (λ (c : BackendColumn). any (str_eq c.name) extra) columns)
        else [])

-- For a table that exists, whenever the comparison returns: the names reported as missing are those
-- of the fields without a column, and of the other fields those whose types agree are reported as
-- matched and the rest as of another type, all in the order of the fields. `apply` sends an ALTER
-- TABLE for exactly the fields whose names `diff` reports as missing, if it is to add them, and then
-- one for exactly the columns whose names `diff` reports as extra, if it is to drop them.
pub project_loop-apply_statements :
    (b : Backend) (table : IntFile) (columns : List BackendColumn) (add_missing drop_extra : Bool)
    → (lists : DiffLists) → project_loop b columns table.fields ≡ some lists
    → (lists.missing ≡ diff_names (to_add columns table.fields))
      × (lists.matched ≡ diff_names (with_verdict true b columns table.fields))
      × (lists.mismatches ≡ diff_names (with_verdict false b columns table.fields))
      × (apply_statements b table columns add_missing drop_extra
          ≡ reported_statements b table columns lists.missing
              (extra_loop table.fields columns)
              add_missing
              drop_extra)
unfolding apply_statements
project_loop-apply_statements b table columns add_missing drop_extra lists h =
    let r = project_loop-Reported b columns table.fields lists h in
    let fields = table.fields in
    let extra = extra_loop fields columns in
    let added =
      ap (λ names. keep (λ (f : IntField). any (str_eq f.name) names) fields) r.0
      ∙ keep_named (λ (f : IntField). f.name) (λ f. not (in_backend columns f))
          (λ x y e. ap (λ n. not (any (has_name (to_ascii_uppercase n)) columns)) e) fields in
    let dropped =
      ap (λ names. keep (λ (c : BackendColumn). any (str_eq c.name) names) columns)
        (extra_loop-to_drop fields columns)
      ∙ keep_named (λ (c : BackendColumn). c.name) (λ c. not (in_project fields c))
          (λ x y e. ap (λ n. not (any (is_named (to_ascii_uppercase n)) fields)) e) columns in
    (
      r.0,
      r.1,
      r.2,
      ap₂
          (λ (fs : List IntField) (cs : List BackendColumn).
            (if add_missing then map (add_statement b table) fs else [])
            ++ (if drop_extra then map (drop_statement b table) cs else []))
          (sym added) (sym dropped),
    )

text_trimmed :
    (digits : Str)
    → trim (codes "VARCHAR(" ++ digits ++ codes ")") ≡ codes "VARCHAR(" ++ digits ++ codes ")"
unfolding trim
text_trimmed digits = trim_end_last (codes "VARCHAR(" ++ digits) 41 refl

catalogue : normalize_type postgres (codes "CHARACTER VARYING") ≡ some (codes "CHARACTER")
unfolding normalize_type trim trim_end
catalogue = refl

mismatch :
    (n : ℕ)
    → types_match postgres (codes "VARCHAR(" ++ show_nat n ++ codes ")") (codes "CHARACTER VARYING")
      ≡ some false
unfolding types_match normalize_type
mismatch n =
    ap
      (λ s.
        let canon = canonical postgres (before_char 40 (before_char 32 (to_ascii_uppercase s))) in
        and_then (normalize_type postgres (codes "CHARACTER VARYING")) (λ a. some (str_eq canon a)))
      (text_trimmed (show_nat n))
    ∙ ap (λ o. and_then o (λ a. some (str_eq (codes "CHARACTER VARYING") a))) catalogue

-- Whatever its length, a STRING, LSTRING, ZSTRING or ZSTRING_12 field, whose column is a VARCHAR on
-- Postgres, is not found to agree with that column: the catalogue calls the column's type CHARACTER
-- VARYING, of which the comparison takes the first word alone.
pub types_match-text :
    (f : IntField)
    → (types_match postgres
          (sql_type_str postgres (as_type type_string f) [])
          (codes "CHARACTER VARYING")
        ≡ some false)
      × (types_match postgres
            (sql_type_str postgres (as_type type_lstring f) [])
            (codes "CHARACTER VARYING")
          ≡ some false)
      × (types_match postgres
            (sql_type_str postgres (as_type type_zstring f) [])
            (codes "CHARACTER VARYING")
          ≡ some false)
      × (types_match postgres
            (sql_type_str postgres (as_type type_zstring_12 f) [])
            (codes "CHARACTER VARYING")
          ≡ some false)
unfolding sql_type_str sql_type
types_match-text f = (
  mismatch (max f.length 1),
  mismatch (max (f.length - 1) 1),
  mismatch (max f.length 1),
  mismatch (max f.length 1),
)
