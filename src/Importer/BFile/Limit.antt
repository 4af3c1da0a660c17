-- ===== src/Importer/BFile/Limit.antt =====
-- btr-import's bfile.rs: the count of records in a file's header as a limit.
use wx_btrieve_sql_driver.Base.{
  Bool-cases, List, [], ap, arith, false, if◌then◌else◌, inl, inr, leb, ltb, refl, suc, take, true,
  zero, ℕ, ◌&&◌, ◌+◌, ◌-◌, ◌==◌, ◌∷◌, ◌≡◌,
}

-- As many of them as the header counts, or all when it counts none.
abbrev pub limited : ℕ → ℕ → List (List ℕ) → List (List ℕ)
limited count y recs = if count == 0 then recs else take (count - y) recs

pub limited-nil : (count y : ℕ) → limited count y [] ≡ []
limited-nil count y = elim (Bool-cases (count == 0)) [
  | inl e ↦ rw e refl
  | inr e ↦ rw e (none_taken (count - y))
]
  where
    none_taken : (k : ℕ) → take {A = List ℕ} k [] ≡ []
    none_taken zero = refl
    none_taken (suc k) = refl

pub limited-cons :
    (count y : ℕ) (r : List ℕ) (rs : List (List ℕ))
    → (leb count y && ltb 0 count) ≡ false
    → limited count y (r ∷ rs) ≡ r ∷ limited count (y + 1) rs
limited-cons count y r rs open_end = elim (Bool-cases (count == 0)) [
  | inl e ↦ rw e refl
  | inr e ↦
      let more : count - y ≡ suc (count - (y + 1)) = ground arith in
      rw e (ap (λ k. take k (r ∷ rs)) more)
]

pub limited-reached :
    (count y : ℕ) (recs : List (List ℕ))
    → (leb count y && ltb 0 count) ≡ true
    → limited count y recs ≡ []
limited-reached count y recs full =
    let some_count : (count == 0) ≡ false = ground arith in
    let spent : count - y ≡ 0 = ground arith in rw some_count (ap (λ k. take k recs) spent)
