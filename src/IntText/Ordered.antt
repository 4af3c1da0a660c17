-- ===== src/IntText/Ordered.antt =====
-- int.rs, `parse`: indexes that are in the order of their numbers already.
use wx_btrieve_sql_driver.Base.{
  Bool-cases, List, [], ap, arith, false, inl, inr, is_empty, ltb, map, refl, ℕ, ◌∙◌, ◌∷◌, ◌≡◌, ◌≤◌,
}
use wx_btrieve_sql_driver.Importer.Schema.{IntIndex}
use wx_btrieve_sql_driver.IntText.IndexLines.{all_stored, cleared}
use wx_btrieve_sql_driver.IntText.Table.{insert_by_num, sort_by_num}

-- Indexes in the order of their numbers, from `low` on.
abbrev pub Rising : ℕ → List IntIndex → Type 0
Rising low [] = Unit
Rising low (ix ∷ ixs) = (low ≤ ix.num) × Rising ix.num ixs

insert-Rising :
    (ix : IntIndex) (ixs : List IntIndex) → Rising ix.num ixs → insert_by_num ix ixs ≡ ix ∷ ixs
unfolding insert_by_num
insert-Rising ix [] h = refl
insert-Rising ix (j ∷ js) h = let e : ltb j.num ix.num ≡ false = ground arith in rw e refl

pub sort-Rising : (low : ℕ) (ixs : List IntIndex) → Rising low ixs → sort_by_num ixs ≡ ixs
unfolding sort_by_num
sort-Rising low [] h = refl
sort-Rising low (ix ∷ ixs) h =
    ap (insert_by_num ix) (sort-Rising ix.num ixs h.1) ∙ insert-Rising ix ixs h.1

Rising-lower : (low high : ℕ) (ixs : List IntIndex) → low ≤ high → Rising high ixs → Rising low ixs
Rising-lower low high [] lower h = tt
Rising-lower low high (ix ∷ ixs) lower h = (omega (arith, h.0), h.1)

pub all_stored-Rising :
    (low : ℕ) (ixs : List IntIndex) → Rising low ixs → Rising low (all_stored ixs)
all_stored-Rising low [] h = tt
all_stored-Rising low (ix ∷ ixs) h = elim (Bool-cases (is_empty (map cleared ix.segments))) [
  | inl e ↦ rw e (Rising-lower low ix.num (all_stored ixs) h.0 (all_stored-Rising ix.num ixs h.1))
  | inr e ↦ rw e (h.0, all_stored-Rising ix.num ixs h.1)
]
