-- ===== src/Base/Searches.antt =====
-- Searches in lists that are turned or filtered.
use mathlib.Core.Path.{◌≡◌, refl, ◌∙◌}
use mathlib.Core.Bool.{Bool, true, false, ◌||◌}
use mathlib.Core.List.{List, [], ◌∷◌, ◌++◌, reverse, reverse_aux}
use mathlib.Core.Option.{Option, none, some}
use native.Mathlib.Omega.{arith}
use wx_btrieve_sql_driver.Base.Lists.{any, filter_map}

any-reverse_aux :
    {A : Type 0} (p : A → Bool) (xs acc : List A)
    → any p (reverse_aux xs acc) ≡ any p xs || any p acc
any-reverse_aux p [] acc = refl
any-reverse_aux p (x ∷ xs) acc = any-reverse_aux p xs (x ∷ acc) ∙ swap (p x) (any p xs) (any p acc)
  where
    swap : (a b c : Bool) → (b || (a || c)) ≡ ((a || b) || c)
    swap a b c = ground arith

pub any-reverse : {A : Type 0} (p : A → Bool) (xs : List A) → any p (reverse xs) ≡ any p xs
any-reverse p xs = any-reverse_aux p xs [] ∙ or_false (any p xs)
  where
    or_false : (b : Bool) → (b || false) ≡ b
    or_false b = ground arith

or_true : (a b : Bool) → b ≡ true → (a || b) ≡ true
or_true true b h = refl
or_true false b h = h

pub any-filter_map :
    {A B : Type 0} (p : B → Bool) (g : A → Option B) (before : List A) (l : A) (behind : List A)
    → (e : B) → g l ≡ some e
    → p e ≡ true
    → any p (filter_map g (before ++ l ∷ behind)) ≡ true
any-filter_map {B = B} p g [] l behind e found holds = rw found (rw holds refl)
any-filter_map {B = B} p g (x ∷ before) l behind e found holds =
    kept (g x) (any-filter_map p g before l behind e found holds)
  where
    kept :
        (o : Option B)
        → any p (filter_map g (before ++ l ∷ behind)) ≡ true
        → any p (
            let rest = filter_map g (before ++ l ∷ behind) in
            elim o [ none ↦ rest | some y ↦ y ∷ rest ])
          ≡ true
    kept none ih = ih
    kept (some y) ih = or_true (p y) _ ih
