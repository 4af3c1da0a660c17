-- ===== src/Record/Layout.antt =====
-- record.rs `pack_row`: where the fields of a packed record lie.
use wx_btrieve_sql_driver.Base.{
  All, List, Str, [], ap, arith, inl, inr, length, length-slice, length-splice, refl, slice,
  slice-splice_after, slice-splice_before, slice-splice_self, splice, sym, ℕ, ◌+◌, ◌<◌, ◌^◌, ◌∙◌,
  ◌∷◌, ◌≡◌, ◌≤◌, ◌⊎◌,
}
use wx_btrieve_sql_driver.Floats.{Floats}
use wx_btrieve_sql_driver.Record.Lengths.{length-pack_slot}
use wx_btrieve_sql_driver.Record.Pack.{pack_field, pack_fields, pack_slot}
use wx_btrieve_sql_driver.Schema.{IntField}

-- A field of at least one byte inside a record of `n` bytes.
abbrev pub IsInside : ℕ → IntField → Type 0
IsInside n f = (0 < f.length) × (f.offset + f.length ≤ n)

-- One field ends before the other begins.
abbrev pub Apart : IntField → IntField → Type 0
Apart f g = (f.offset + f.length ≤ g.offset) ⊎ (g.offset + g.length ≤ f.offset)

abbrev pub AllApart : List IntField → Type 0
AllApart [] = Unit {0}
AllApart (f ∷ fs) = All (Apart f) fs × AllApart fs

-- The bytes that the encoder of `f` gives for the slot in `buf`.
abbrev pub slot_of : Floats → IntField → Str → List ℕ → List ℕ
slot_of fl f val buf = pack_slot fl f.native_type val (slice f.offset f.length buf)

length-slot_of :
    (fl : Floats) (f : IntField) (val : Str) (buf : List ℕ)
    → IsInside (length buf) f
    → length (slot_of fl f val buf) ≡ f.length
length-slot_of fl f val buf h =
    let e = length-slice f.offset f.length buf h.1 in
    length-pack_slot fl f.native_type val (slice f.offset f.length buf) (omega (arith, e)) ∙ e

length-splice_slot :
    (fl : Floats) (f : IntField) (val : Str) (buf : List ℕ)
    → 0 < f.length
    → f.offset + f.length ≤ length buf
    → length (splice f.offset (slot_of fl f val buf) buf) ≡ length buf
length-splice_slot fl f val buf p q =
    length-splice f.offset (slot_of fl f val buf) buf
      (omega (arith, length-slot_of fl f val buf (p, q)))

pub length-pack_field :
    (fl : Floats) (f : IntField) (val : Str) (buf : List ℕ)
    → length (pack_field fl f val buf) ≡ length buf
unfolding pack_field
length-pack_field fl f val buf = ground (arith, length-splice_slot fl f val buf)

pack_field-fits :
    (fl : Floats) (f : IntField) (val : Str) (buf : List ℕ)
    → IsInside (length buf) f
    → length buf < 2 ^ 32
    → pack_field fl f val buf ≡ splice f.offset (slot_of fl f val buf) buf
unfolding pack_field
pack_field-fits fl f val buf h small = ground arith

-- A field is written into its own slot.
written :
    (fl : Floats) (f : IntField) (val : Str) (buf : List ℕ)
    → IsInside (length buf) f
    → length buf < 2 ^ 32
    → slice f.offset f.length (pack_field fl f val buf) ≡ slot_of fl f val buf
written fl f val buf h small =
    let e = length-slot_of fl f val buf h in
    ap (slice f.offset f.length) (pack_field-fits fl f val buf h small)
    ∙ ap (λ k. slice f.offset k (splice f.offset (slot_of fl f val buf) buf)) (sym e)
    ∙ slice-splice_self f.offset (slot_of fl f val buf) buf (omega (arith, e))

-- The slots apart from it stay.
kept :
    (fl : Floats) (f g : IntField) (val : Str) (buf : List ℕ)
    → IsInside (length buf) f
    → length buf < 2 ^ 32
    → Apart f g
    → slice g.offset g.length (pack_field fl f val buf) ≡ slice g.offset g.length buf
kept fl f g val buf h small apart =
    let e = length-slot_of fl f val buf h in
    ap (slice g.offset g.length) (pack_field-fits fl f val buf h small) ∙ elim apart [
      | inl p ↦
          slice-splice_after g.offset g.length f.offset (slot_of fl f val buf) buf
            (omega (arith, e))
      | inr p ↦
          slice-splice_before g.offset g.length f.offset (slot_of fl f val buf) buf p (omega arith)
    ]

abbrev pub AllInside : ℕ → List (IntField × Str) → Type 0
AllInside n fvs = All (λ (e : IntField × Str). IsInside n e.0) fvs

abbrev pub ApartFrom : IntField → List (IntField × Str) → Type 0
ApartFrom f fvs = All (λ (e : IntField × Str). Apart f e.0) fvs

abbrev pub PairsApart : List (IntField × Str) → Type 0
PairsApart [] = Unit {0}
PairsApart (e ∷ es) = ApartFrom e.0 es × PairsApart es

Apart-sym : (f g : IntField) → Apart f g → Apart g f
Apart-sym f g (inl p) = inr p
Apart-sym f g (inr p) = inl p

kept_by_all :
    (fl : Floats) (f : IntField) (fvs : List (IntField × Str)) (n : ℕ) (buf : List ℕ)
    → length buf ≡ n
    → n < 2 ^ 32
    → AllInside n fvs
    → ApartFrom f fvs
    → slice f.offset f.length (pack_fields fl fvs buf) ≡ slice f.offset f.length buf
unfolding pack_fields
kept_by_all fl f [] n buf e small ins apart = refl
kept_by_all fl f ((g, val) ∷ rest) n buf e small ins apart =
    kept_by_all fl f rest n (pack_field fl g val buf) (length-pack_field fl g val buf ∙ e) small
      ins.1 apart.1
    ∙ kept fl g f val buf (ins.0.0, omega arith) (omega arith) (Apart-sym f g apart.0)

-- Each field's slot holds what its encoder made of the slot in `buf`.
abbrev pub Written : Floats → List ℕ → List ℕ → List (IntField × Str) → Type 0
Written fl out buf fvs =
    All (λ (e : IntField × Str). slice e.0.offset e.0.length out ≡ slot_of fl e.0 e.1 buf) fvs

Written-later :
    (fl : Floats) (f : IntField) (val : Str) (out buf : List ℕ) (fvs : List (IntField × Str))
    → IsInside (length buf) f
    → length buf < 2 ^ 32
    → ApartFrom f fvs
    → Written fl out (pack_field fl f val buf) fvs
    → Written fl out buf fvs
Written-later fl f val out buf [] h small apart w = tt
Written-later fl f val out buf ((g, v) ∷ rest) h small apart w = (
  w.0 ∙ ap (pack_slot fl g.native_type v) (kept fl f g val buf h small apart.0),
  Written-later fl f val out buf rest h small apart.1 w.1,
)

pub all-Written :
    (fl : Floats) (fvs : List (IntField × Str)) (n : ℕ) (buf : List ℕ)
    → length buf ≡ n
    → n < 2 ^ 32
    → AllInside n fvs
    → PairsApart fvs
    → Written fl (pack_fields fl fvs buf) buf fvs
unfolding pack_fields
all-Written fl [] n buf e small ins apart = tt
all-Written fl ((f, val) ∷ rest) n buf e small ins apart =
    let buf' = pack_field fl f val buf in
    let e' : length buf' ≡ n = length-pack_field fl f val buf ∙ e in
    let inside : IsInside (length buf) f = (ins.0.0, omega arith) in
    (
      kept_by_all fl f rest n buf' e' small ins.1 apart.0
          ∙ written fl f val buf inside (omega arith),
      Written-later fl f val (pack_fields fl rest buf') buf rest inside (omega arith) apart.0
          (all-Written fl rest n buf' e' small ins.1 apart.1),
    )

pub length-pack_fields :
    (fl : Floats) (fvs : List (IntField × Str)) (buf : List ℕ)
    → length (pack_fields fl fvs buf) ≡ length buf
unfolding pack_fields
length-pack_fields fl [] buf = refl
length-pack_fields fl ((f, val) ∷ rest) buf =
    length-pack_fields fl rest (pack_field fl f val buf) ∙ length-pack_field fl f val buf
