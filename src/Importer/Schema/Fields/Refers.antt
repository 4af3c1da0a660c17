-- ===== src/Importer/Schema/Fields/Refers.antt =====
-- bfile.rs, `schema_to_int`: the fields that the segments of the generated indexes refer to.
use mathlib.Core.Path.{subst}
use wx_btrieve_sql_driver.Base.{
  All, Bool, Bool-cases, List, Option-cases, [], any, arith, find, inl, inr, refl, some, sym, true,
  ℕ, ◌++◌, ◌+◌, ◌<◌, ◌==◌, ◌∷◌, ◌≡◌,
}
use wx_btrieve_sql_driver.Importer.Schema.{BtrieveSeg}
use wx_btrieve_sql_driver.Importer.Schema.Fields.{
  Numbering, field_for, same_place, generated_field, with_field,
}
use wx_btrieve_sql_driver.Schema.{IntField}

abbrev pub has_num : ℕ → IntField → Bool
has_num k f = f.num == k

-- A field that has the place, if it has the number `k`.
abbrev pub Placed : ℕ → ℕ → ℕ → IntField → Type 0
Placed k off len f = has_num k f ≡ true → (f.offset ≡ off) × (f.length ≡ len)

-- Number `k` names a field, and only fields at that place.
abbrev pub Resolves : ℕ → ℕ → ℕ → List IntField → Type 0
Resolves k off len fields = All (Placed k off len) fields × (any (has_num k) fields ≡ true)

any_append :
    (p : IntField → Bool) (xs ys : List IntField) → any p xs ≡ true → any p (xs ++ ys) ≡ true
any_append p [] ys h = cc
any_append p (x ∷ xs) ys h = elim (Bool-cases (p x)) [
  | inl e ↦ rw e refl
  | inr e ↦ rw e (any_append p xs ys (rw e at h))
]

any_last :
    (p : IntField → Bool) (xs : List IntField) (y : IntField)
    → p y ≡ true
    → any p (xs ++ y ∷ []) ≡ true
any_last p [] y h = rw h refl
any_last p (x ∷ xs) y h = elim (Bool-cases (p x)) [
  | inl e ↦ rw e refl
  | inr e ↦ rw e (any_last p xs y h)
]

All-snoc :
    (P : IntField → Type 0) (xs : List IntField) (y : IntField)
    → All P xs
    → P y
    → All P (xs ++ y ∷ [])
All-snoc P [] y a h = (h, tt)
All-snoc P (x ∷ xs) y a h = (a.0, All-snoc P xs y a.1 h)

All-both :
    (P Q : IntField → Type 0) (xs : List IntField) → All P xs → All Q xs → All (λ x. P x × Q x) xs
All-both P Q [] a b = tt
All-both P Q (x ∷ xs) a b = ((a.0, b.0), All-both P Q xs a.1 b.1)

All-imp :
    (P Q : IntField → Type 0) (xs : List IntField)
    → ((x : IntField) → P x → Q x)
    → All P xs
    → All Q xs
All-imp P Q [] f a = tt
All-imp P Q (x ∷ xs) f a = (f x a.0, All-imp P Q xs f a.1)

-- All numbers are given out, and each names one place.
pub record IsNumbered (st : Numbering) : Type 0 where
  pub given : All (λ f. f.num < st.field_num) st.fields
  pub one_place : All (λ f. Resolves f.num f.offset f.length st.fields) st.fields

-- What a number named, it still names.
abbrev pub Grows : Numbering → Numbering → Type 0
Grows st st' =
    (k off len : ℕ)
    → k < st.field_num
    → Resolves k off len st.fields
    → (k < st'.field_num) × Resolves k off len st'.fields

-- A number that names the place of a segment.
abbrev pub NamesPlace : Numbering → BtrieveSeg → ℕ → Type 0
NamesPlace st seg k = (k < st.field_num) × Resolves k seg.offset seg.length st.fields

abbrev Known : Numbering → IntField → Type 0
Known st g = (g.num < st.field_num) × Resolves g.num g.offset g.length st.fields

known : (st : Numbering) → IsNumbered st → All (Known st) st.fields
known st ok =
    All-both (λ f. f.num < st.field_num) (λ f. Resolves f.num f.offset f.length st.fields) st.fields
      ok.given ok.one_place

place_of :
    (seg : BtrieveSeg) (g : IntField)
    → same_place seg g ≡ true
    → (g.offset ≡ seg.offset) × (g.length ≡ seg.length)
place_of seg g h = ground arith

found-NamesPlace :
    (seg : BtrieveSeg) (st : Numbering) (fields : List IntField) (f : IntField)
    → All (Known st) fields
    → find (same_place seg) fields ≡ some f
    → NamesPlace st seg f.num
found-NamesPlace seg st [] f a e = cc
found-NamesPlace seg st (g ∷ gs) f a e = elim (Bool-cases (same_place seg g)) [
  | inl h ↦
      let same : g ≡ f = cc (rw h at e) in
      let place = place_of seg g h in
      subst (λ x. NamesPlace st seg x.num) same
        (
          a.0.0,
          subst (λ o. Resolves g.num o seg.length st.fields) place.0
              (subst (λ l. Resolves g.num g.offset l st.fields) place.1 a.0.1),
        )
  | inr h ↦ found-NamesPlace seg st gs f a.1 (rw h at e)
]

abbrev with_new : Numbering → IntField → Numbering
with_new st g = record { fields = st.fields ++ g ∷ []; field_num = st.field_num + 1 }

other_num : (k n : ℕ) (g : IntField) → g.num ≡ n → k < n → has_num k g ≡ true → ⊥
other_num k n g e below h = ground arith

grow_one :
    (st : Numbering) (g : IntField) (k off len : ℕ)
    → g.num ≡ st.field_num
    → k < st.field_num
    → Resolves k off len st.fields
    → Resolves k off len (st.fields ++ g ∷ [])
grow_one st g k off len num below h = (
  All-snoc (Placed k off len) st.fields g h.0
      (λ t. absurd (other_num k st.field_num g num below t)),
  any_append (has_num k) st.fields (g ∷ []) h.1,
)

not_given : (n : ℕ) (f g : IntField) → g.num ≡ n → f.num < n → has_num g.num f ≡ true → ⊥
not_given n f g e below h = ground arith

self_num : (g : IntField) → has_num g.num g ≡ true
self_num g = ground arith

new-Resolves :
    (st : Numbering) (g : IntField)
    → g.num ≡ st.field_num
    → IsNumbered st
    → Resolves g.num g.offset g.length (st.fields ++ g ∷ [])
new-Resolves st g num ok = (
  All-snoc (Placed g.num g.offset g.length) st.fields g
      (All-imp (λ f. f.num < st.field_num) (Placed g.num g.offset g.length) st.fields
        (λ f below t. absurd (not_given st.field_num f g num below t)) ok.given)
      (λ t. (refl, refl)),
  any_last (has_num g.num) st.fields g (self_num g),
)

new-IsNumbered :
    (st : Numbering) (g : IntField)
    → g.num ≡ st.field_num
    → IsNumbered st
    → IsNumbered (with_new st g)
new-IsNumbered st g num ok = record {
  given =
      All-snoc (λ f. f.num < st.field_num + 1) st.fields g
        (All-imp (λ f. f.num < st.field_num) (λ f. f.num < st.field_num + 1) st.fields
          (λ f below. omega arith) ok.given)
        (omega arith);
  one_place =
      All-snoc (λ f. Resolves f.num f.offset f.length (st.fields ++ g ∷ [])) st.fields g
        (All-imp (Known st) (λ f. Resolves f.num f.offset f.length (st.fields ++ g ∷ [])) st.fields
          (λ f k. grow_one st g f.num f.offset f.length num k.0 k.1) (known st ok))
        (new-Resolves st g num ok);
}

-- What numbering the field of a segment gives: its number, and the variables behind it.
pub record Numbers (seg : BtrieveSeg) (st : Numbering) (out : ℕ × Numbering) : Type 0 where
  pub ok : IsNumbered out.1
  pub grows : Grows st out.1
  pub names : NamesPlace out.1 seg out.0

pub field_for-Numbers :
    (key_num n : ℕ) (seg : BtrieveSeg) (st : Numbering)
    → IsNumbered st
    → Numbers seg st (field_for key_num n seg st)
unfolding field_for generated_field
field_for-Numbers key_num n seg st ok = elim (Option-cases (find (same_place seg) st.fields)) [
  | inl e ↦
      let g = generated_field key_num n seg st.field_num in
      subst (λ o. Numbers seg st (with_field key_num n seg st o)) (sym e)
        (record {
          ok = new-IsNumbered st g refl ok;
          grows = λ k off len below h. (omega arith, grow_one st g k off len refl below h);
          names = (omega arith, new-Resolves st g refl ok);
        })
  | inr (f, e) ↦
      subst (λ o. Numbers seg st (with_field key_num n seg st o)) (sym e)
        (record {
          ok = ok;
          grows = λ k off len below h. (below, h);
          names = found-NamesPlace seg st st.fields f (known st ok) e;
        })
]
