-- ===== src/WebDiff/Names.antt =====
-- diff.rs: what is chosen from a list, found again by its names.
use wx_btrieve_sql_driver.Base.{
  All, Bool, Bool-cases, List, Str, [], any, ap, arith, inl, inr, keep, map, refl, str_eq,
  str_eq_iff, true, ◌&&◌, ◌∷◌, ◌≡◌,
}

keep_cong :
    {A : Type 0} (p q : A → Bool) (xs : List A) → All (λ x. p x ≡ q x) xs → keep p xs ≡ keep q xs
keep_cong p q [] h = refl
keep_cong p q (x ∷ xs) h = elim (Bool-cases (q x)) [
  | inl e ↦ rw (h.0, e) (ap (λ l. x ∷ l) (keep_cong p q xs h.1))
  | inr e ↦ rw (h.0, e) (keep_cong p q xs h.1)
]

module _ {A : Type 0} (name : A → Str) (p : A → Bool)
    (by_name : (x y : A) → name x ≡ name y → p x ≡ p y) where
  abbrev named_among : A → List A → Bool
  named_among x ys = any (λ y. str_eq (name x) (name y)) ys

  abbrev found_among : A → List A → Bool
  found_among x ys = any (str_eq (name x)) (map name (keep p ys))

  same_verdict : (x y : A) → str_eq (name x) (name y) ≡ true → p x ≡ p y
  same_verdict x y e = by_name x y ((str_eq_iff (name x) (name y)).0 e)

  found_lem : (x : A) (ys : List A) → found_among x ys ≡ p x && named_among x ys
  found_lem x [] = ground arith
  found_lem x (y ∷ ys) =
      let ih = found_lem x ys in
      elim (Bool-cases (str_eq (name x) (name y))) [
        | inl same ↦
            let v = same_verdict x y same in
            elim (Bool-cases (p y)) [
              | inl e ↦ rw e (ground (arith, v, e, same))
              | inr e ↦ rw e (ground (arith, v, e, same, ih))
            ]
        | inr other ↦ elim (Bool-cases (p y)) [
          | inl e ↦ rw e (ground (arith, other, ih))
          | inr e ↦ rw e (ground (arith, other, ih))
        ]
      ]

  longer :
      (y : A) (xs ys : List A)
      → All (λ x. named_among x ys ≡ true) xs
      → All (λ x. named_among x (y ∷ ys) ≡ true) xs
  longer y [] ys h = tt
  longer y (x ∷ xs) ys h = (ground (arith, h.0), longer y xs ys h.1)

  each_named : (xs : List A) → All (λ x. named_among x xs ≡ true) xs
  each_named [] = tt
  each_named (x ∷ xs) =
      let here = (str_eq_iff (name x) (name x)).1 refl in
      (ground (arith, here), longer x xs xs (each_named xs))

  agree :
      (whole xs : List A)
      → All (λ x. named_among x whole ≡ true) xs
      → All (λ x. found_among x whole ≡ p x) xs
  agree whole [] h = tt
  agree whole (x ∷ xs) h =
      (let found = found_lem x whole in ground (arith, found, h.0), agree whole xs h.1)

  -- What a test chooses by names alone is what is found by the names of the chosen.
  pub keep_named :
      (xs : List A) → keep (λ x. any (str_eq (name x)) (map name (keep p xs))) xs ≡ keep p xs
  keep_named xs = keep_cong (λ x. found_among x xs) p xs (agree xs xs (each_named xs))
