-- ===== src/Importer/BFile/Lengths.antt =====
-- btr-import's bfile.rs: the length of the records of a file that `open` accepts.
use mathlib.Core.Path.{subst}
use native.Mathlib.Nat.{div-mul-le_self}
use wx_btrieve_sql_driver.Base.{
  All, Bool, Bool-cases, List, Option, [], arith, false, if◌then◌else◌, inl, inr, leb, length,
  length-slice, length-take, ltb, map, min, refl, slice, suc, sym, take, true, zero, ℕ, ◌&&◌, ◌*◌,
  ◌++◌, ◌+◌, ◌-◌, ◌/◌, ◌<◌, ◌==◌, ◌∷◌, ◌≡◌, ◌≤◌, ◌⊎◌,
}
use wx_btrieve_sql_driver.Importer.BFile.{
  BtrieveFile, FileHeader, OpenError, Slot, checked, found, found_if, header_of, is_data_page,
  no_record, open_file, page_at, past_page, read_slot, rec_start, records, slot_record,
}
use wx_btrieve_sql_driver.Importer.BFile.Begin.{records-Begins}
use wx_btrieve_sql_driver.Importer.BFile.Live.{
  ahead, page_slot, product_mono, record_in, slots-fit, slots_from, somes, upto,
}
use wx_btrieve_sql_driver.Importer.BFile.Whole.{live_records}

checked_lengths :
    (bytes : List ℕ) (o : OpenError ⊎ FileHeader) (f : BtrieveFile)
    → checked bytes o ≡ inr f
    → f.header.logical_rec_len ≤ f.header.physical_rec_len
checked_lengths bytes (inl e) f h = cc
checked_lengths bytes (inr head) f h = ground arith

open_file-lengths :
    (bytes : List ℕ) (f : BtrieveFile)
    → open_file bytes ≡ inr f
    → f.header.logical_rec_len ≤ f.header.physical_rec_len
unfolding open_file
open_file-lengths bytes f h = elim (Bool-cases (ltb (length bytes) 512)) [
  | inl e ↦ cc (rw e at h)
  | inr e ↦ checked_lengths bytes (header_of bytes) f (rw e at h)
]

page_length :
    (f : BtrieveFile) (p : ℕ)
    → p < length f.bytes / f.header.page_size
    → length (page_at f p) ≡ f.header.page_size
page_length f p below =
    let ps = f.header.page_size in
    length-slice (p * ps) ps f.bytes (
      omega
        (arith, product_mono p (length f.bytes / ps) ps below, div-mul-le_self (length f.bytes) ps))

-- The record that a slot holds, if it holds one, has `len` bytes.
abbrev Sized : ℕ → Slot → Type 0
Sized len past_page = Unit
Sized len no_record = Unit
Sized len (found r) = length r ≡ len

found_if-Sized :
    (len : ℕ) (b : Bool) (r : List ℕ) → (b ≡ true → length r ≡ len) → Sized len (found_if b r)
found_if-Sized len true r h = h refl
found_if-Sized len false r h = tt

slot_record-Sized :
    (h : FileHeader) (deleted : List ℕ) (off : ℕ) (slot : List ℕ)
    → h.logical_rec_len ≤ length slot
    → Sized h.logical_rec_len (slot_record h deleted off slot)
slot_record-Sized h deleted off slot long = elim (Bool-cases (h.version == 6)) [
  | inl e ↦ rw e (
      found_if-Sized h.logical_rec_len _ (slice 2 h.logical_rec_len slot)
        (λ t. length-slice 2 h.logical_rec_len slot (room (length slot) _ t)))
  | inr e ↦ rw e (
      found_if-Sized h.logical_rec_len _ (take (min h.logical_rec_len (length slot)) slot)
        (λ t. omega (arith, length-take (min h.logical_rec_len (length slot)) slot)))
]
  where
    room :
        (n : ℕ) (used : Bool)
        → (leb 2 n && used && leb (2 + h.logical_rec_len) n) ≡ true
        → 2 + h.logical_rec_len ≤ n
    room n used t = ground arith

abbrev AllSized : ℕ → List (List ℕ) → Type 0
AllSized len recs = All (λ r. length r ≡ len) recs

AllSized-append :
    (len : ℕ) (xs ys : List (List ℕ)) → AllSized len xs → AllSized len ys → AllSized len (xs ++ ys)
AllSized-append len [] ys a b = b
AllSized-append len (x ∷ xs) ys a b = (a.0, AllSized-append len xs ys a.1 b)

read_slot-Sized :
    (h : FileHeader) (deleted page : List ℕ) (off si : ℕ)
    → h.logical_rec_len ≤ h.physical_rec_len
    → length page ≡ h.page_size
    → rec_start h + si * h.physical_rec_len + h.physical_rec_len ≤ h.page_size
    → Sized h.logical_rec_len (read_slot h deleted off page si)
unfolding read_slot
read_slot-Sized h deleted page off si lens size room =
    let at = rec_start h + si * h.physical_rec_len in
    let inside : ltb h.page_size (at + h.physical_rec_len) ≡ false =
      not_below h.page_size (at + h.physical_rec_len) room in
    let whole : length (slice at h.physical_rec_len page) ≡ h.physical_rec_len =
      length-slice at h.physical_rec_len page
        (subst (λ n. at + h.physical_rec_len ≤ n) (sym size) room) in
    rw inside (
      slot_record-Sized h deleted (off + at) (slice at h.physical_rec_len page)
        (subst (λ n. h.logical_rec_len ≤ n) (sym whole) lens))
  where
    not_below : (a b : ℕ) → b ≤ a → ltb a b ≡ false
    not_below a b h = ground arith

somes-Sized :
    (len : ℕ) (s : Slot) (rest : List (Option (List ℕ)))
    → Sized len s
    → AllSized len (somes rest)
    → AllSized len (somes (record_in s ∷ rest))
somes-Sized len past_page rest h a = a
somes-Sized len no_record rest h a = a
somes-Sized len (found r) rest h a = (h, a)

module _ (f : BtrieveFile) (deleted : List ℕ) (n : ℕ)
    (fits : (si : ℕ)
      → si < n
      → rec_start f.header + si * f.header.physical_rec_len + f.header.physical_rec_len
        ≤ f.header.page_size)
    (lens : f.header.logical_rec_len ≤ f.header.physical_rec_len) where
  slots-Sized :
      (p left si : ℕ)
      → p < length f.bytes / f.header.page_size
      → si + left ≤ n
      → AllSized f.header.logical_rec_len
          (somes (map (λ i. record_in (page_slot f deleted n p i)) (upto si left)))
  slots-Sized p zero si page e = tt
  slots-Sized p (suc left) si page e =
      somes-Sized f.header.logical_rec_len (page_slot f deleted n p si)
        (map (λ i. record_in (page_slot f deleted n p i)) (upto (si + 1) left))
        (read_slot-Sized f.header deleted (page_at f p) (p * f.header.page_size) si lens
          (page_length f p page) (fits si (omega arith)))
        (slots-Sized p left (si + 1) page (omega arith))

  page_if-Sized :
      (b : Bool) (l : List (List ℕ))
      → AllSized f.header.logical_rec_len l
      → AllSized f.header.logical_rec_len (if b then l else [])
  page_if-Sized true l a = a
  page_if-Sized false l a = tt

  ahead-Sized :
      (left p : ℕ)
      → p + left ≤ length f.bytes / f.header.page_size
      → AllSized f.header.logical_rec_len (ahead f deleted n left p 0)
  ahead-Sized zero p e = tt
  ahead-Sized (suc left) p e =
      AllSized-append f.header.logical_rec_len
        (if is_data_page (page_at f p) then slots_from f deleted n p 0 else [])
        (ahead f deleted n left (p + 1) 0)
        (page_if-Sized (is_data_page (page_at f p)) (slots_from f deleted n p 0)
          (slots-Sized p (n - 0) 0 (omega arith) (omega arith)))
        (ahead-Sized left (p + 1) (omega arith))

-- Every record that is read from a file that `open` accepts has exactly the logical length of the
-- file's header, in both formats.
pub live_records-Sized :
    (bytes : List ℕ) (f : BtrieveFile)
    → open_file bytes ≡ inr f
    → All (λ r. length r ≡ f.header.logical_rec_len) (live_records f)
live_records-Sized bytes f accepted =
    let b = records-Begins f in
    let it = records f in
    ahead-Sized f it.v5_deleted it.slots_pp
      (λ si below. slots-fit f.header b.start si b.low (subst (λ k. si < k) b.slots below))
      (open_file-lengths bytes f accepted) it.total_pages 0 (omega (arith, b.pages))
