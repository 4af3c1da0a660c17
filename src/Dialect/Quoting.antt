-- ===== src/Dialect/Quoting.antt =====
-- dialect.rs `quote_ident` read back: an independent reader of quoted identifiers.
use mathlib.Core.List.{append_assoc}
use wx_btrieve_sql_driver.Base.{
  Bool-cases, Option, Str, [], ap, arith, false, if◌then◌else◌, inl, inr, none, replace_char, some,
  true, ℕ, ◌++◌, ◌==◌, ◌∙◌, ◌∷◌, ◌≡◌,
}
use wx_btrieve_sql_driver.Dialect.{Backend, mssql, postgres, quote_ident, sqlite}

-- The character that closes a quoted identifier.
abbrev pub closing : Backend → ℕ
closing mssql = 93
closing postgres = 34
closing sqlite = 34

abbrev opening : Backend → ℕ
opening mssql = 91
opening postgres = 34
opening sqlite = 34

-- Reads up to the first `q` that is not doubled: the name, and what follows the identifier.
abbrev pub read_quoted : ℕ → Str → Option (Str × Str)
read_quoted q [] = none
read_quoted q (c ∷ []) = if c == q then some ([], []) else none
read_quoted q (c ∷ d ∷ rest) =
    let doubled = read_quoted q rest in
    let plain = read_quoted q (d ∷ rest) in
    if c == q
    then (if d == q
        then elim doubled [ none ↦ none | some r ↦ some (q ∷ r.0, r.1) ]
        else some ([], d ∷ rest))
    else elim plain [ none ↦ none | some r ↦ some (c ∷ r.0, r.1) ]

abbrev pub read_ident : Backend → Str → Option (Str × Str)
read_ident b [] = none
read_ident b (c ∷ cs) = if c == opening b then read_quoted (closing b) cs else none

-- No text that begins by `q`.
abbrev pub NotAtHead : ℕ → Str → Type 0
NotAtHead q [] = Unit {0}
NotAtHead q (c ∷ cs) = (c == q) ≡ false

read_closed : (q : ℕ) (rest : Str) → NotAtHead q rest → read_quoted q (q ∷ rest) ≡ some ([], rest)
read_closed q [] h = ground arith
read_closed q (c ∷ cs) h = ground arith

-- A character that is not `q` is taken as it stands, whatever follows.
read_other :
    (q c : ℕ) (s : Str) (r : Str × Str)
    → (c == q) ≡ false
    → read_quoted q s ≡ some r
    → read_quoted q (c ∷ s) ≡ some (c ∷ r.0, r.1)
read_other q c [] r n h = ground arith
read_other q c (d ∷ s) r n h = ground (arith, n, h)

read_doubled :
    (q : ℕ) (s : Str) (r : Str × Str)
    → read_quoted q s ≡ some r
    → read_quoted q (q ∷ q ∷ s) ≡ some (q ∷ r.0, r.1)
read_doubled q s r h = ground (arith, h)

replace_hit :
    (q c : ℕ) (s rest : Str)
    → (c == q) ≡ true
    → replace_char q (q ∷ q ∷ []) (c ∷ s) ++ rest ≡ q ∷ q ∷ (replace_char q (q ∷ q ∷ []) s ++ rest)
replace_hit q c s rest h = ground (arith, h)

replace_miss :
    (q c : ℕ) (s rest : Str)
    → (c == q) ≡ false
    → replace_char q (q ∷ q ∷ []) (c ∷ s) ++ rest ≡ c ∷ (replace_char q (q ∷ q ∷ []) s ++ rest)
replace_miss q c s rest h = ground (arith, h)

beq-eq : (c q : ℕ) → (c == q) ≡ true → q ≡ c
beq-eq c q h = ground arith

pub read_replaced :
    (q : ℕ) (name rest : Str)
    → NotAtHead q rest
    → read_quoted q (replace_char q (q ∷ q ∷ []) name ++ q ∷ rest) ≡ some (name, rest)
read_replaced q [] rest h = read_closed q rest h
read_replaced q (c ∷ cs) rest h = elim (Bool-cases (c == q)) [
  | inl e ↦
      ap (read_quoted q) (replace_hit q c cs (q ∷ rest) e)
      ∙ read_doubled q _ (cs, rest) (read_replaced q cs rest h)
      ∙ ap (λ x. some (x ∷ cs, rest)) (beq-eq c q e)
  | inr n ↦
      ap (read_quoted q) (replace_miss q c cs (q ∷ rest) n)
      ∙ read_other q c _ (cs, rest) n (read_replaced q cs rest h)
]

-- For every backend and name: whatever text follows that does not begin by the closing quote, a
-- reader of the quoted identifier finds the name itself, and that text behind it.
pub read_ident-quote_ident :
    (b : Backend) (name rest : Str)
    → NotAtHead (closing b) rest
    → read_ident b (quote_ident b name ++ rest) ≡ some (name, rest)
unfolding quote_ident
read_ident-quote_ident mssql name rest h =
    ap (read_quoted 93) (append_assoc (replace_char 93 (93 ∷ 93 ∷ []) name) (93 ∷ []) rest)
    ∙ read_replaced 93 name rest h
read_ident-quote_ident postgres name rest h =
    ap (read_quoted 34) (append_assoc (replace_char 34 (34 ∷ 34 ∷ []) name) (34 ∷ []) rest)
    ∙ read_replaced 34 name rest h
read_ident-quote_ident sqlite name rest h =
    ap (read_quoted 34) (append_assoc (replace_char 34 (34 ∷ 34 ∷ []) name) (34 ∷ []) rest)
    ∙ read_replaced 34 name rest h
