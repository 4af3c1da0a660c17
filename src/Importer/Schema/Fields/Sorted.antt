-- ===== src/Importer/Schema/Fields/Sorted.antt =====
-- bfile.rs, `schema_to_int`: the fields sorted by offset, and the indexes over them.
use wx_btrieve_sql_driver.Base.{
  All, Bool, Bool-cases, List, [], any, ap, arith, inl, inr, ltb, refl, ℕ, ◌||◌, ◌∙◌, ◌∷◌, ◌≡◌, ◌≤◌,
}
use wx_btrieve_sql_driver.Importer.Schema.Fields.{insert_by_offset, sort_by_offset}
use wx_btrieve_sql_driver.Importer.Schema.Fields.Refers.{Placed, Resolves, has_num}
use wx_btrieve_sql_driver.Schema.{IntField}

insert-All :
    (P : IntField → Type 0) (f : IntField) (gs : List IntField)
    → P f
    → All P gs
    → All P (insert_by_offset f gs)
unfolding insert_by_offset
insert-All P f [] h a = (h, tt)
insert-All P f (g ∷ gs) h a = elim (Bool-cases (ltb g.offset f.offset)) [
  | inl e ↦ rw e (a.0, insert-All P f gs h a.1)
  | inr e ↦ rw e (h, a)
]

sort-All : (P : IntField → Type 0) (fs : List IntField) → All P fs → All P (sort_by_offset fs)
unfolding sort_by_offset
sort-All P [] a = tt
sort-All P (f ∷ fs) a = insert-All P f (sort_by_offset fs) a.0 (sort-All P fs a.1)

any_insert :
    (p : IntField → Bool) (f : IntField) (gs : List IntField)
    → any p (insert_by_offset f gs) ≡ p f || any p gs
unfolding insert_by_offset
any_insert p f [] = refl
any_insert p f (g ∷ gs) = elim (Bool-cases (ltb g.offset f.offset)) [
  | inl e ↦ rw e (rw (any_insert p f gs) (ground arith))
  | inr e ↦ rw e refl
]

any_sort : (p : IntField → Bool) (fs : List IntField) → any p (sort_by_offset fs) ≡ any p fs
unfolding sort_by_offset
any_sort p [] = refl
any_sort p (f ∷ fs) = any_insert p f (sort_by_offset fs) ∙ ap (λ b. p f || b) (any_sort p fs)

pub sort-Resolves :
    (k off len : ℕ) (fs : List IntField)
    → Resolves k off len fs
    → Resolves k off len (sort_by_offset fs)
sort-Resolves k off len fs h = (sort-All (Placed k off len) fs h.0, any_sort (has_num k) fs ∙ h.1)

-- No offset is below the one before it.
abbrev pub Ascending : List IntField → Type 0
Ascending [] = Unit
Ascending (f ∷ fs) = All (λ g. f.offset ≤ g.offset) fs × Ascending fs

All_le :
    (m n : ℕ) (gs : List IntField) → m ≤ n → All (λ g. n ≤ g.offset) gs → All (λ g. m ≤ g.offset) gs
All_le m n [] h a = tt
All_le m n (g ∷ gs) h a = (omega (arith, a.0), All_le m n gs h a.1)

insert-Ascending :
    (f : IntField) (gs : List IntField) → Ascending gs → Ascending (insert_by_offset f gs)
unfolding insert_by_offset
insert-Ascending f [] a = (tt, tt)
insert-Ascending f (g ∷ gs) a = elim (Bool-cases (ltb g.offset f.offset)) [
  | inl e ↦
      rw e
        (insert-All (λ x. g.offset ≤ x.offset) f gs (ground arith) a.0, insert-Ascending f gs a.1)
  | inr e ↦ rw e ((ground arith, All_le f.offset g.offset gs (ground arith) a.0), a)
]

pub sort-Ascending : (fs : List IntField) → Ascending (sort_by_offset fs)
unfolding sort_by_offset
sort-Ascending [] = tt
sort-Ascending (f ∷ fs) = insert-Ascending f (sort_by_offset fs) (sort-Ascending fs)
