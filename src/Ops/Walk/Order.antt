-- ===== src/Ops/Walk/Order.antt =====
-- ops/step.rs: the order of a walk by record numbers, and the rows behind a position of it.
use wx_btrieve_sql_driver.Base.{
  All, Bool, List, Option, [], ap, arith, drop, false, int_lt, keep, negsuc, none, pos, refl, some,
  suc, sym, true, zero, ℕ, ℤ, ◌∙◌, ◌∷◌, ◌≡◌,
}
use wx_btrieve_sql_driver.Sql.Columns.{Dir, backward, forward}

abbrev pub precedes : Dir → ℤ → ℤ → Bool
precedes forward a b = int_lt a b
precedes backward a b = int_lt b a

int_lt_irrefl : (a : ℤ) → int_lt a a ≡ false
int_lt_irrefl (pos n) = ground arith
int_lt_irrefl (negsuc n) = ground arith

int_lt_asymm : (a b : ℤ) → int_lt a b ≡ true → int_lt b a ≡ false
int_lt_asymm (pos a) (pos b) h = ground arith
int_lt_asymm (pos a) (negsuc b) h = cc
int_lt_asymm (negsuc a) (pos b) h = refl
int_lt_asymm (negsuc a) (negsuc b) h = ground arith

precedes_irrefl : (dir : Dir) (a : ℤ) → precedes dir a a ≡ false
precedes_irrefl forward a = int_lt_irrefl a
precedes_irrefl backward a = int_lt_irrefl a

precedes_asymm : (dir : Dir) (a b : ℤ) → precedes dir a b ≡ true → precedes dir b a ≡ false
precedes_asymm forward a b h = int_lt_asymm a b h
precedes_asymm backward a b h = int_lt_asymm b a h

module _ {A : Type 0} (number : A → ℤ) (dir : Dir) where
  abbrev pub is_behind : Option ℤ → A → Bool
  is_behind none r = true
  is_behind (some at) r = precedes dir at (number r)

  -- Each row stands precedes all that follow it.
  abbrev pub Ordered : List A → Type 0
  Ordered [] = Unit
  Ordered (r ∷ rs) = All (λ s. precedes dir (number r) (number s) ≡ true) rs × Ordered rs

  pub keep-none : (rows : List A) → keep (is_behind none) rows ≡ rows
  keep-none [] = refl
  keep-none (r ∷ rs) = ap (λ l. r ∷ l) (keep-none rs)

  keep_all :
      (at : ℤ) (rows : List A)
      → All (λ s. precedes dir at (number s) ≡ true) rows
      → keep (is_behind (some at)) rows ≡ rows
  keep_all at [] h = refl
  keep_all at (r ∷ rs) h = rw h.0 (ap (λ l. r ∷ l) (keep_all at rs h.1))

  before_later :
      (x r : A) (n : ℕ) (xs rs : List A)
      → All (λ s. precedes dir (number x) (number s) ≡ true) xs
      → drop n xs ≡ r ∷ rs
      → precedes dir (number x) (number r) ≡ true
  before_later x r zero [] rs h e = cc
  before_later x r zero (y ∷ ys) rs h e = let same : y ≡ r = cc in rw (← same) h.0
  before_later x r (suc n) [] rs h e = cc
  before_later x r (suc n) (y ∷ ys) rs h e = before_later x r n ys rs h.1 e

  pub keep-drop :
      (n : ℕ) (rows : List A) (r : A) (rs : List A)
      → Ordered rows
      → drop n rows ≡ r ∷ rs
      → keep (is_behind (some (number r))) rows ≡ rs
  keep-drop zero [] r rs o e = cc
  keep-drop zero (x ∷ xs) r rs o e =
      let same : x ≡ r = cc in
      let tail : xs ≡ rs = cc in
      ap (λ y. keep (is_behind (some (number y))) (x ∷ xs)) (sym same)
      ∙ rw precedes_irrefl (keep_all (number x) xs o.0 ∙ tail)
  keep-drop (suc n) [] r rs o e = cc
  keep-drop (suc n) (x ∷ xs) r rs o e =
      rw (precedes_asymm dir (number x) (number r) (before_later x r n xs rs o.0 e))
        (keep-drop n xs r rs o.1 e)

pub drop-suc :
    {A : Type 0} (n : ℕ) (rows : List A) (r : A) (rs : List A)
    → drop n rows ≡ r ∷ rs
    → drop (suc n) rows ≡ rs
drop-suc zero [] r rs e = cc
drop-suc zero (x ∷ xs) r rs e = cc
drop-suc (suc n) [] r rs e = cc
drop-suc (suc n) (x ∷ xs) r rs e = drop-suc n xs r rs e
