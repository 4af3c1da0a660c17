-- ===== src/Record/Packed.antt =====
-- record.rs `pack_row` and `field_slice`: what a reader of a packed record finds.
use wx_btrieve_sql_driver.Base.{
  All, List, Str, [], ap, arith, length, length-replicate, refl, replicate, slice, suc, take, zero,
  zip, ℕ, ◌+◌, ◌<◌, ◌^◌, ◌∙◌, ◌∷◌, ◌≡◌, ◌≤◌,
}
use wx_btrieve_sql_driver.Floats.{Floats}
use wx_btrieve_sql_driver.Record.Layout.{
  AllApart, AllInside, Apart, IsInside, PairsApart, Written, all-Written, length-pack_fields,
}
use wx_btrieve_sql_driver.Record.Pack.{pack_fields, pack_row, pack_slot}
use wx_btrieve_sql_driver.Record.Slices.{field_slice}
use wx_btrieve_sql_driver.Schema.{IntField}

-- The encoders write into the record and never past its end: a packed record has its length,
-- whatever the fields and the columns are.
pub length-pack_row :
    (fl : Floats) (fields : List IntField) (columns : List Str) (record_length : ℕ)
    → length (pack_row fl fields columns record_length) ≡ record_length
unfolding pack_row
length-pack_row fl fields columns n =
    length-pack_fields fl (zip fields columns) (replicate n 0) ∙ length-replicate n 0

take-replicate : (k n : ℕ) (a : ℕ) → k ≤ n → take k (replicate n a) ≡ replicate k a
take-replicate zero n a h = refl
take-replicate (suc k) zero a h = absurd (omega arith)
take-replicate (suc k) (suc n) a h = ap (λ r. a ∷ r) (take-replicate k n a (omega arith))

slice-replicate : (s k n : ℕ) (a : ℕ) → s + k ≤ n → slice s k (replicate n a) ≡ replicate k a
slice-replicate zero k n a h = take-replicate k n a (omega arith)
slice-replicate (suc s) k zero a h = absurd (omega arith)
slice-replicate (suc s) k (suc n) a h = slice-replicate s k n a (omega arith)

pub field_slice-inside :
    (rec : List ℕ) (f : IntField)
    → IsInside (length rec) f
    → length rec < 2 ^ 32
    → field_slice rec f.offset f.length ≡ slice f.offset f.length rec
unfolding field_slice
field_slice-inside rec f h small = ground arith

All-zip :
    (P : IntField → Type 0) (fields : List IntField) (columns : List Str)
    → All P fields
    → All (λ (e : IntField × Str). P e.0) (zip fields columns)
All-zip P [] columns h = tt
All-zip P (f ∷ fields) [] h = tt
All-zip P (f ∷ fields) (c ∷ columns) h = (h.0, All-zip P fields columns h.1)

PairsApart-zip :
    (fields : List IntField) (columns : List Str)
    → AllApart fields
    → PairsApart (zip fields columns)
PairsApart-zip [] columns h = tt
PairsApart-zip (f ∷ fields) [] h = tt
PairsApart-zip (f ∷ fields) (c ∷ columns) h =
    (All-zip (Apart f) fields columns h.0, PairsApart-zip fields columns h.1)

-- A reader of the field finds what the encoder makes of an empty slot.
abbrev pub Holds : Floats → List ℕ → IntField × Str → Type 0
Holds fl rec e =
    field_slice rec e.0.offset e.0.length
    ≡ pack_slot fl e.0.native_type e.1 (replicate e.0.length 0)

found :
    (fl : Floats) (rec : List ℕ) (n : ℕ) (fvs : List (IntField × Str))
    → length rec ≡ n
    → n < 2 ^ 32
    → AllInside n fvs
    → Written fl rec (replicate n 0) fvs
    → All (Holds fl rec) fvs
found fl rec n [] e small ins w = tt
found fl rec n ((f, v) ∷ rest) e small ins w = (
  field_slice-inside rec f (ins.0.0, omega arith) (omega arith)
      ∙ w.0
      ∙ ap (pack_slot fl f.native_type v) (slice-replicate f.offset f.length n 0 ins.0.1),
  found fl rec n rest e small ins.1 w.1,
)

-- For fields of one byte or more that lie inside the record, a record below 4 GB, and no two
-- that overlap: after `pack_row`, the slice of each field that has a column is exactly what that
-- field's encoder makes of the column's text and a zeroed slot; no other field disturbs it.
pub pack_row-Holds :
    (fl : Floats) (fields : List IntField) (columns : List Str) (record_length : ℕ)
    → record_length < 2 ^ 32
    → All (IsInside record_length) fields
    → AllApart fields
    → All (Holds fl (pack_row fl fields columns record_length)) (zip fields columns)
unfolding pack_row
pack_row-Holds fl fields columns n small ins apart =
    let fvs = zip fields columns in
    found fl (pack_fields fl fvs (replicate n 0)) n fvs (length-pack_row fl fields columns n) small
      (All-zip (IsInside n) fields columns ins)
      (all-Written fl fvs n (replicate n 0) (length-replicate n 0) small
        (All-zip (IsInside n) fields columns ins) (PairsApart-zip fields columns apart))
